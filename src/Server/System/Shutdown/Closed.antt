-- ===== src/Server/System/Shutdown/Closed.antt =====
-- server.go, `closeLiveConns`: every connection that was proxied is closed, whatever the handlers do.
use gocloak.Base.{
  ℕ, ◌≡◌, ◌≢◌, ◌⊎◌, inl, inr, refl, Bool, true, false, Bytes, List, [], ◌∷◌, map, Option, some,
  arith, contains, nat_eq, nat_beq, lookup, Bool-cases,
}
use gocloak.Net.{Addr, AddrPort, unmap, addr_eq}
use gocloak.Limiter.{drain_live}
use gocloak.Server.Handler.{
  Admission, turned_away, admitted, admit, Decision, refuse, dial, register,
}
use gocloak.Server.System.Invariant.{IsReaped, InSet, PhaseOk}
use gocloak.Server.System.Revocation.{IsStarted, IsQuiet, Reach-kept, IsStarted-Inv, not_in_empty}
use gocloak.Server.System.Sets.{contains-append}
use gocloak.Server.System.Steps.{
  Only, admit-Only, register-Only, leave-Only, leave_unregistered-Only, Only-refl,
}
use gocloak.Server.System.{
  Phase, reading, dialling, dialled, tracked, proxying, System, Step, Reach, at_phase, shut,
  after_admit, after_decide, after_check, after_drain,
}
use gocloak.Server.System
use gocloak.Server.{Server, update, limiter_for, close_live}
use gocloak.Server.System.Shutdown.{close_live_conns, is_reload, WindsDown, shuts, then_step}

lookup-contains :
    (ip : Addr) (l : ℕ) (m : List (Addr × ℕ))
    → lookup ip m ≡ some l
    → contains (map (λ (e : Addr × ℕ). e.1) m) l ≡ true
unfolding lookup contains
lookup-contains ip l [] h = absurd (ground arith)
lookup-contains ip l ((k, v) ∷ m) h = ground (arith, lookup-contains ip l m)

module _ (c : ℕ) (ip : Addr) (l : ℕ) (service : Bytes) (backend : AddrPort) where
  -- The connection is closed, or about to be, or the limiter that has it in its set is about to be drained.
  abbrev IsDoomed : System → Type 0
  IsDoomed m =
      IsReaped m c
      ⊎ (InSet m c l × (contains m.pending l ≡ true) × (m.phase c ≡ proxying ip l service backend))

  close_live_conns-IsDoomed :
      (m : System)
      → PhaseOk m c (proxying ip l service backend)
      → m.phase c ≡ proxying ip l service backend
      → IsDoomed (close_live_conns m)
  unfolding close_live_conns limiter_for
  close_live_conns-IsDoomed m (made, inl reaped) at = inl reaped
  close_live_conns-IsDoomed m (made, inr (set, inl current)) at = inr (
    set,
    ground (
      arith,
      contains-append m.pending (map (λ (e : Addr × ℕ). e.1) m.server.limiters) l,
      lookup-contains (unmap ip) l m.server.limiters,
    ),
    at,
  )
  close_live_conns-IsDoomed m (made, inr (set, inr waits)) at = inr (
    set,
    ground (arith, contains-append m.pending (map (λ (e : Addr × ℕ). e.1) m.server.limiters) l),
    at,
  )

  -- A step of the handler of `d`, which either is another connection's or closes this one.
  handler-IsDoomed :
      (m n : System) (d : ℕ) (p : Phase)
      → Only d m.server n.server
      → n.phase ≡ update m.phase d p
      → n.pending ≡ m.pending
      → n.closing ≡ m.closing
      → ((k : ℕ) → m.closed k ≡ true → n.closed k ≡ true)
      → (d ≡ c → m.phase c ≡ proxying ip l service backend → n.closed c ≡ true)
      → IsDoomed m
      → IsDoomed n
  handler-IsDoomed m n d p o phase pending closing more own (inl (inl shut_)) =
      inl (inl (more c shut_))
  handler-IsDoomed m n d p o phase pending closing more own (inl (inr taken)) =
      inl (inr (ground arith))
  handler-IsDoomed m n d p o phase pending closing more own (inr (set, waits, at)) =
      elim (Bool-cases (nat_beq d c)) [
        | inl same ↦ inl (inl (own (ground arith) at))
        | inr other ↦ inr (ground (arith, o.others l c), ground arith, ground arith)
      ]

  shut-IsDoomed :
      (m : System) (d : ℕ) (p : Phase) (s : Server)
      → Only d m.server s
      → IsDoomed m
      → IsDoomed (shut d p s m)
  shut-IsDoomed m d p s o =
      handler-IsDoomed m (shut d p s m) d p o refl refl refl (λ k h. ground arith)
        (λ same at. ground arith)

  -- The handler of `d` moves on; it was not in the proxy.
  moves-IsDoomed :
      (m : System) (d : ℕ) (p : Phase) (s : Server)
      → Only d m.server s
      → (d ≡ c → m.phase c ≢ proxying ip l service backend)
      → IsDoomed m
      → IsDoomed (record (at_phase d p m) { server = s })
  moves-IsDoomed m d p s o not_here =
      handler-IsDoomed m (record (at_phase d p m) { server = s }) d p o refl refl refl (λ k h. h)
        (λ same at. absurd (not_here same at))

  accepts-IsDoomed :
      (m : System) (d now : ℕ) (remote : Option Addr)
      → m.phase d ≡ System.unborn
      → IsDoomed m
      → IsDoomed (after_admit d (admit now remote m.server) m)
  unfolding after_admit
  accepts-IsDoomed m d now remote at i =
      split (admit now remote m.server) (admit-Only d now remote m.server)
    where
      split : (r : Server × Admission) → Only d m.server r.0 → IsDoomed (after_admit d r m)
      split (s, turned_away e) o = shut-IsDoomed m d _ s o i
      split (s, admitted ip' l') o =
          moves-IsDoomed m d (reading ip' l') s o (λ same here. ground arith) i

  hellos-IsDoomed :
      (m : System) (d : ℕ) (ip' : Addr) (l' : ℕ) (decision : Decision)
      → m.phase d ≡ reading ip' l'
      → IsDoomed m
      → IsDoomed (after_decide d ip' l' decision m)
  unfolding after_decide
  hellos-IsDoomed m d ip' l' (refuse e) at i =
      shut-IsDoomed m d _ _ (leave_unregistered-Only d l' m.server) i
  hellos-IsDoomed m d ip' l' (dial service' backend') at i =
      moves-IsDoomed m d (dialling ip' l' service' backend') m.server (Only-refl d m.server)
        (λ same here. ground arith) i

  checks-IsDoomed :
      (m : System) (d : ℕ) (ip' : Addr) (l' : ℕ) (service' : Bytes) (backend' : AddrPort) (b : Bool)
      → m.phase d ≡ tracked ip' l' service' backend'
      → IsDoomed m
      → IsDoomed (after_check d ip' l' service' backend' b m)
  unfolding after_check
  checks-IsDoomed m d ip' l' service' backend' true at i =
      moves-IsDoomed m d (proxying ip' l' service' backend') m.server (Only-refl d m.server)
        (λ same here. ground arith) i
  checks-IsDoomed m d ip' l' service' backend' false at i =
      shut-IsDoomed m d _ _ (leave-Only d l' m.server) i

  drains-IsDoomed :
      (m : System) (l' : ℕ) (rest : List ℕ)
      → m.pending ≡ l' ∷ rest
      → IsDoomed m
      → IsDoomed (after_drain rest (close_live l' m.server) m)
  unfolding after_drain close_live drain_live contains
  drains-IsDoomed m l' rest e i =
      ground (arith, contains-append m.closing (m.server.heap l').live c)

  closes-IsDoomed :
      (m : System) (d : ℕ) (rest : List ℕ)
      → m.closing ≡ d ∷ rest
      → IsDoomed m
      → IsDoomed (record m { closing = rest; closed = update m.closed d true })
  unfolding contains
  closes-IsDoomed m d rest e i = ground arith

  Step-IsDoomed : {m n : System} (s : Step m n) → is_reload s ≡ false → IsDoomed m → IsDoomed n
  unfolding register
  Step-IsDoomed {m} (System.accepts d now remote at) no_reload i =
      accepts-IsDoomed m d now remote at i
  Step-IsDoomed {m} (System.hellos d ip' l' conn at) no_reload i = hellos-IsDoomed m d ip' l' _ at i
  Step-IsDoomed {m} (System.dial_fails d ip' l' service' backend' at) no_reload i =
      shut-IsDoomed m d _ _ (leave_unregistered-Only d l' m.server) i
  Step-IsDoomed {m} (System.dials d ip' l' service' backend' at) no_reload i =
      moves-IsDoomed m d (dialled ip' l' service' backend') m.server (Only-refl d m.server)
        (λ same here. ground arith) i
  Step-IsDoomed {m} (System.tracks d ip' l' service' backend' at) no_reload i =
      moves-IsDoomed m d (tracked ip' l' service' backend') _ (register-Only d l' m.server)
        (λ same here. ground arith) i
  Step-IsDoomed {m} (System.checks d ip' l' service' backend' at) no_reload i =
      checks-IsDoomed m d ip' l' service' backend' _ at i
  Step-IsDoomed {m} (System.finishes d ip' l' service' backend' at) no_reload i =
      shut-IsDoomed m d _ _ (leave-Only d l' m.server) i
  Step-IsDoomed {m} (System.swaps config) no_reload i = absurd (ground arith)
  Step-IsDoomed {m} (System.refreshes now) no_reload i = absurd (ground arith)
  Step-IsDoomed {m} (System.drains l' rest e) no_reload i = drains-IsDoomed m l' rest e i
  Step-IsDoomed {m} (System.closes d rest e) no_reload i = closes-IsDoomed m d rest e i

  WindsDown-IsDoomed : {m n : System} → IsDoomed m → WindsDown m n → IsDoomed n
  WindsDown-IsDoomed i shuts = i
  WindsDown-IsDoomed i (then_step w s no_reload) =
      Step-IsDoomed s no_reload (WindsDown-IsDoomed i w)

-- A started server that has run in any way, and whose shutdown then calls `closeLiveConns` while the handlers
-- go on in any order and the watcher is still: once no limiter waits for its `closeLive` and no connection
-- to be closed, every connection that was proxied when the shutdown began is closed.
pub close_live_conns-closes :
    {m n o : System} (c : ℕ) (ip : Addr) (l : ℕ) (service : Bytes) (backend : AddrPort)
    → IsStarted m
    → Reach m n
    → n.phase c ≡ proxying ip l service backend
    → WindsDown (close_live_conns n) o
    → IsQuiet o
    → o.closed c ≡ true
close_live_conns-closes {m} {n} {o} c ip l service backend s r at w (pending, closing) =
    let (inv, _) = Reach-kept (IsStarted-Inv m s, s.listed) r in
    let doomed =
      WindsDown-IsDoomed c ip l service backend
        (close_live_conns-IsDoomed c ip l service backend n (rw at at (inv.phases c)) at) w in
    elim doomed [
      | inl reaped ↦ elim reaped [
        | inl shut_ ↦ shut_
        | inr taken ↦ absurd (not_in_empty o.closing c closing taken)
      ]
      | inr set ↦ absurd (not_in_empty o.pending l pending set.1)
    ]
