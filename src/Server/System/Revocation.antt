-- ===== src/Server/System/Revocation.antt =====
-- server.go: revocation. No proxied connection outlives the authorization that it was admitted under.
use gocloak.Base.{
  ℕ, ◌≡◌, inl, inr, true, false, Bytes, List, [], some, arith, contains, Any, nat_eq,
}
use gocloak.Net.{Addr, AddrPort, unmap}
use gocloak.Server.Holders.{IsHolder}
use gocloak.Server.Refresh.{IsServer}
use gocloak.Server.System.Invariant.{PhaseOk, Inv}
use gocloak.Server.System.Listed.{IsListed, Step-IsListed}
use gocloak.Server.System.Preserved.{Step-Inv}
use gocloak.Server.System.{unborn, proxying, System, Reach, here, next}
use gocloak.Server.{limiter_for}

-- A server that has just started: `Run` has refreshed the peers once and accepts no connection yet.
pub record IsStarted (m : System) : Type 0 where
  pub server_ok : IsServer m.server
  pub listed : IsListed m
  pub nobody : (c : ℕ) → m.phase c ≡ unborn

pub IsStarted-Inv : (m : System) → IsStarted m → Inv m
IsStarted-Inv m s = record { server_ok = s.server_ok; phases = λ c. rw (s.nobody c) tt }

pub Reach-kept : {m n : System} → Inv m × IsListed m → Reach m n → Inv n × IsListed n
Reach-kept i here = i
Reach-kept i (next r s) =
    let (inv, listed) = Reach-kept i r in (Step-Inv s inv, Step-IsListed s inv listed)

-- The whole of a reload's clean-up has run: no limiter waits for its `closeLive`, and no connection waits
-- to be closed.
abbrev pub IsQuiet : System → Type 0
IsQuiet m = (m.pending ≡ []) × (m.closing ≡ [])

pub not_in_empty : (xs : List ℕ) (c : ℕ) → xs ≡ [] → contains xs c ≡ true → ⊥
unfolding contains
not_in_empty xs c e h = absurd (ground arith)

proxying_in_force :
    (n : System) (c : ℕ) (ip : Addr) (l : ℕ) (service : Bytes) (backend : AddrPort)
    → IsQuiet n
    → PhaseOk n c (proxying ip l service backend)
    → n.closed c ≡ false
    → (limiter_for n.server ip ≡ some l) × (contains (n.server.heap l).live c ≡ true)
proxying_in_force n c ip l service backend (pending, closing) (made, inl (inl closed)) opened =
    absurd (ground arith)
proxying_in_force n c ip l service backend (pending, closing) (made, inl (inr taken)) opened =
    absurd (not_in_empty n.closing c closing taken)
proxying_in_force n c ip l service backend (pending, closing) (made, inr (set, inl current))
      opened =
    (current, set)
proxying_in_force n c ip l service backend (pending, closing) (made, inr (set, inr waits)) opened =
    absurd (not_in_empty n.pending l pending waits)

-- However the handlers and the reloads of a started server interleave, once the clean-up of the reloads
-- has run, a connection that is still proxied and not closed is registered with the limiter in force for
-- its address, and the list of the last refresh holds a peer with this address and this limiter's key.
pub revocation :
    {m n : System} (c : ℕ) (ip : Addr) (l : ℕ) (service : Bytes) (backend : AddrPort)
    → IsStarted m
    → Reach m n
    → IsQuiet n
    → n.phase c ≡ proxying ip l service backend
    → n.closed c ≡ false
    → (limiter_for n.server ip ≡ some l)
      × (contains (n.server.heap l).live c ≡ true)
      × Any (IsHolder (unmap ip) (n.server.heap l).public_key) n.listed
revocation {m} {n} c ip l service backend s r quiet at opened =
    let (inv, listed) = Reach-kept (IsStarted-Inv m s, s.listed) r in
    let (current, set) =
      proxying_in_force n c ip l service backend quiet (rw at at (inv.phases c)) opened in
    (current, set, listed ip l current)
