-- ===== src/Server/System/Steps.antt =====
-- server.go: each step of a handler or of a reload keeps the invariant.
use gocloak.Base.{
  ℕ, ◌≡◌, ◌≢◌, inl, inr, refl, Option, none, some, arith, contains, nat_eq, Option-cases,
}
use gocloak.Limiter.{Limiter, acquire, refill, spend, release, track, untrack}
use gocloak.Net.{Addr}
use gocloak.Server.Handler.{Ending, admit, register, leave, leave_unregistered}
use gocloak.Server.Refresh.{IsServer}
use gocloak.Server.System.Invariant.{PhaseOk, Inv, Spares, phases_after}
use gocloak.Server.System.Sets.{contains-delete, contains-track}
use gocloak.Server.System.{Phase, ended, System, shut}
use gocloak.Server.{Server, update, limiter_for}

-- A handler changes no map, and no set but for its own connection.
pub record Only (c : ℕ) (s s' : Server) : Type 0 where
  pub limiters : s'.limiters ≡ s.limiters
  pub fresh : s'.fresh ≡ s.fresh
  pub others : (l d : ℕ) → c ≢ d → contains (s'.heap l).live d ≡ contains (s.heap l).live d

pub Only-refl : (c : ℕ) (s : Server) → Only c s s
Only-refl c s = record { limiters = refl; fresh = refl; others = λ l d h. refl }

acquire-live : (now : ℕ) (p : Limiter) → (acquire now p).0.live ≡ p.live
unfolding acquire refill spend
acquire-live now p = ground arith

pub admit-Only : (c now : ℕ) (remote : Option Addr) (s : Server) → Only c s (admit now remote s).0
unfolding admit
admit-Only c now none s = Only-refl c s
admit-Only c now (some ip) s = elim (Option-cases (limiter_for s ip)) [
  | inl e ↦ record { limiters = ground arith; fresh = ground arith; others = λ l d h. ground arith }
  | inr (k, e) ↦ record {
    limiters = ground arith;
    fresh = ground arith;
    others = λ l d h. ground (arith, acquire-live now (s.heap k));
  }
]

release-live : (p : Limiter) → (release p).live ≡ p.live
unfolding release
release-live p = ground arith

pub register-Only : (c l : ℕ) (s : Server) → Only c s (register c l s)
unfolding register track
register-Only c l s = record {
  limiters = refl;
  fresh = refl;
  others = λ k d h. ground (arith, contains-track c d (s.heap l).live);
}

pub leave-Only : (c l : ℕ) (s : Server) → Only c s (leave c l s)
unfolding leave untrack
leave-Only c l s = record {
  limiters = refl;
  fresh = refl;
  others = λ k d h.
      ground (arith, release-live (untrack c (s.heap l)), contains-delete c d (s.heap l).live);
}

pub leave_unregistered-Only : (c l : ℕ) (s : Server) → Only c s (leave_unregistered l s)
unfolding leave_unregistered
leave_unregistered-Only c l s = record {
  limiters = refl;
  fresh = refl;
  others = λ k d h. ground (arith, release-live (s.heap l));
}

Only-IsServer : (c : ℕ) (s s' : Server) → Only c s s' → IsServer s → IsServer s'
Only-IsServer c s s' o is = record {
  made = λ ip l h. rw o.fresh (is.made ip l (rw o.limiters at h));
  one_address = λ ip ip' l h h'. is.one_address ip ip' l (rw o.limiters at h) (rw o.limiters at h');
}

-- A step of the handler of `c` spares every other connection.
Only-Spares :
    (c : ℕ) (m n : System) (d : ℕ)
    → Only c m.server n.server
    → n.pending ≡ m.pending
    → n.closing ≡ m.closing
    → n.closed d ≡ m.closed d
    → c ≢ d
    → Spares m n d
unfolding limiter_for
Only-Spares c m n d o pending closing closed h = record {
  grows = omega (arith, o.fresh);
  set = λ l b q. ground (arith, o.others l d h);
  watched = λ ip l b q. ground (arith, o.others l d h, o.limiters);
}

-- The handler of `c` moves on to phase `p`.
pub moves :
    (m n : System) (c : ℕ) (p : Phase)
    → Inv m
    → Only c m.server n.server
    → n.phase ≡ update m.phase c p
    → n.pending ≡ m.pending
    → n.closing ≡ m.closing
    → ((d : ℕ) → c ≢ d → n.closed d ≡ m.closed d)
    → PhaseOk n c p
    → Inv n
moves m n c p i o phase pending closing closed ok = record {
  server_ok = Only-IsServer c m.server n.server o i.server_ok;
  phases =
      phases_after m n c p phase i.phases ok
        (λ d h. Only-Spares c m n d o pending closing (closed d h) h);
}

pub shut-Inv :
    (m : System) (c : ℕ) (e : Ending) (s : Server)
    → Inv m
    → Only c m.server s
    → Inv (shut c (ended e) s m)
shut-Inv m c e s i o =
    moves m (shut c (ended e) s m) c (ended e) i o refl refl refl (λ d h. ground arith) tt
