-- ===== src/Server/System/Listed.antt =====
-- server.go: a limiter in force belongs to a peer that the last refresh listed, at every step.
use gocloak.Base.{
  ℕ, ◌≡◌, refl, inl, inr, Option, none, some, List, arith, Any, Option-cases, Bytes, Bool, true,
  false,
}
use gocloak.Limiter.{Limiter, acquire, refill, spend, release, track, untrack, drain_live}
use gocloak.Net.{Addr, AddrPort, unmap}
use gocloak.Server.Handler.{
  Admission, turned_away, admitted, admit, Decision, refuse, dial, register, leave,
  leave_unregistered,
}
use gocloak.Server.Holders.{IsHolder, refresh_peers-IsHolder}
use gocloak.Server.System.Invariant.{Inv}
use gocloak.Server.System.{
  System, Step, after_admit, after_decide, after_check, after_refresh, after_drain,
}
use gocloak.Server.System
use gocloak.Server.{Server, limiter_for, refresh_peers, close_live}

-- Every limiter in force for an address has the key of a peer that the last refresh listed there.
abbrev pub IsListed : System → Type 0
IsListed m =
    (ip : Addr) (l : ℕ)
    → limiter_for m.server ip ≡ some l
    → Any (IsHolder (unmap ip) (m.server.heap l).public_key) m.listed

-- The map of limiters and the key of each limiter stay.
record Stays (s s' : Server) : Type 0 where
  limiters : s'.limiters ≡ s.limiters
  keys : (l : ℕ) → (s'.heap l).public_key ≡ (s.heap l).public_key

Stays-refl : (s : Server) → Stays s s
Stays-refl s = record { limiters = refl; keys = λ l. refl }

acquire-public_key : (now : ℕ) (p : Limiter) → (acquire now p).0.public_key ≡ p.public_key
unfolding acquire refill spend
acquire-public_key now p = ground arith

admit-Stays : (now : ℕ) (remote : Option Addr) (s : Server) → Stays s (admit now remote s).0
unfolding admit
admit-Stays now none s = Stays-refl s
admit-Stays now (some ip) s = elim (Option-cases (limiter_for s ip)) [
  | inl e ↦ record { limiters = ground arith; keys = λ l. ground arith }
  | inr (k, e) ↦ record {
    limiters = ground arith;
    keys = λ l. ground (arith, acquire-public_key now (s.heap k));
  }
]

module _ (c l : ℕ) (s : Server) where
  register-Stays : Stays s (register c l s)
  unfolding register track
  register-Stays = record { limiters = refl; keys = λ k. ground arith }

  leave-Stays : Stays s (leave c l s)
  unfolding leave release untrack
  leave-Stays = record { limiters = refl; keys = λ k. ground arith }

  leave_unregistered-Stays : Stays s (leave_unregistered l s)
  unfolding leave_unregistered release
  leave_unregistered-Stays = record { limiters = refl; keys = λ k. ground arith }

  close_live-Stays : Stays s (close_live l s).0
  unfolding close_live drain_live
  close_live-Stays = record { limiters = refl; keys = λ k. ground arith }

keeps : (m n : System) → n.listed ≡ m.listed → Stays m.server n.server → IsListed m → IsListed n
unfolding limiter_for
keeps m n listed t h ip l e = rw listed (rw (t.keys l) (h ip l (rw (← t.limiters) e)))

accepts-IsListed :
    (m : System) (c now : ℕ) (remote : Option Addr)
    → IsListed m
    → IsListed (after_admit c (admit now remote m.server) m)
unfolding after_admit
accepts-IsListed m c now remote h =
    split (admit now remote m.server) (admit-Stays now remote m.server)
  where
    split : (r : Server × Admission) → Stays m.server r.0 → IsListed (after_admit c r m)
    split (s, turned_away e) t = keeps m (after_admit c (s, turned_away e) m) refl t h
    split (s, admitted ip l) t = keeps m (after_admit c (s, admitted ip l) m) refl t h

hellos-IsListed :
    (m : System) (c : ℕ) (ip : Addr) (l : ℕ) (d : Decision)
    → IsListed m
    → IsListed (after_decide c ip l d m)
unfolding after_decide
hellos-IsListed m c ip l (refuse e) h =
    keeps m (after_decide c ip l (refuse e) m) refl (leave_unregistered-Stays c l m.server) h
hellos-IsListed m c ip l (dial service backend) h = h

checks-IsListed :
    (m : System) (c : ℕ) (ip : Addr) (l : ℕ) (service : Bytes) (backend : AddrPort) (b : Bool)
    → IsListed m
    → IsListed (after_check c ip l service backend b m)
unfolding after_check
checks-IsListed m c ip l service backend true h = h
checks-IsListed m c ip l service backend false h =
    keeps m (after_check c ip l service backend false m) refl (leave-Stays c l m.server) h

refreshes-IsListed :
    (m : System) (now : ℕ)
    → Inv m
    → IsListed (after_refresh (refresh_peers now m.config.peers m.server) m)
unfolding after_refresh
refreshes-IsListed m now i ip l e =
    refresh_peers-IsHolder now m.config.peers m.server ip l i.server_ok e

drains-IsListed :
    (m : System) (l : ℕ) (rest : List ℕ)
    → IsListed m
    → IsListed (after_drain rest (close_live l m.server) m)
unfolding after_drain
drains-IsListed m l rest h =
    keeps m (after_drain rest (close_live l m.server) m) refl (close_live-Stays l l m.server) h

pub Step-IsListed : {m n : System} → Step m n → Inv m → IsListed m → IsListed n
Step-IsListed {m} (System.accepts c now remote at) i h = accepts-IsListed m c now remote h
Step-IsListed {m} (System.hellos c ip l conn at) i h = hellos-IsListed m c ip l _ h
Step-IsListed {m} {n} (System.dial_fails c ip l service backend at) i h =
    keeps m n refl (leave_unregistered-Stays c l m.server) h
Step-IsListed {m} (System.dials c ip l service backend at) i h = h
Step-IsListed {m} {n} (System.tracks c ip l service backend at) i h =
    keeps m n refl (register-Stays c l m.server) h
Step-IsListed {m} (System.checks c ip l service backend at) i h =
    checks-IsListed m c ip l service backend _ h
Step-IsListed {m} {n} (System.finishes c ip l service backend at) i h =
    keeps m n refl (leave-Stays c l m.server) h
Step-IsListed {m} (System.swaps config) i h = h
Step-IsListed {m} (System.refreshes now) i h = refreshes-IsListed m now i
Step-IsListed {m} (System.drains l rest e) i h = drains-IsListed m l rest h
Step-IsListed {m} (System.closes c rest e) i h = h
