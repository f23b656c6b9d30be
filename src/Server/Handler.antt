-- ===== src/Server/Handler.antt =====
-- server.go, `handleConn`, cut at the places where other goroutines may run: each function is what
-- happens between two of them.
use gocloak.Base.{ℕ, Bool, false, Bytes, Option, none, some, Result, ok, err, nat_beq}
use gocloak.Conn.{Conn}
use gocloak.Limiter.{Limiter, Verdict, allowed, refused, acquire, release, track, untrack}
use gocloak.Net.{Addr, AddrPort}
use gocloak.Policy.{Policy, resolve}
use gocloak.Server.{Server, limiter_for, update}
use gocloak.Wire.{
  Status, FrameError, malformed, status_denied, status_rate_limited, status_malformed,
}

-- How a connection that does not become a proxy ends: in silence, or after a status frame.
pub data Ending : Type 0 where
  silent : Ending
  answered : Status → Ending

-- From accept to the concurrency slot. `admitted` carries the peer's address and its limiter.
pub data Admission : Type 0 where
  turned_away : Ending → Admission
  admitted : Addr → ℕ → Admission

-- `s.mu` guards the maps, the limiter's own lock its fields.
abbrev pub on_limiter : ℕ → (Limiter → Limiter) → Server → Server
on_limiter l f s = record s { heap = update s.heap l (f (s.heap l)) }

unfoldable pub verdict_admission : Addr → ℕ → Verdict → Admission
verdict_admission ip l allowed = admitted ip l
verdict_admission ip l (refused _) = turned_away (answered status_rate_limited)

-- `limiterFor` and `acquire`; the address comes from `remoteTunnelIP`, and `none` is one that cannot be
-- parsed.
unfoldable pub admit : ℕ → Option Addr → Server → Server × Admission
unfolding verdict_admission
admit now none s = (s, turned_away silent)
admit now (some ip) s = elim (limiter_for s ip) [
  | none ↦ (s, turned_away silent)
  | some l ↦
      let (p, verdict) = acquire now (s.heap l) in
      (record s { heap = update s.heap l p }, verdict_admission ip l verdict)
]

-- Behind the hello read: the policy in force decides.
pub data Decision : Type 0 where
  refuse : Ending → Decision
  dial : Bytes → AddrPort → Decision

abbrev on_grant : Bytes → Option AddrPort → Decision
on_grant service none = refuse (answered status_denied)
on_grant service (some backend) = dial service backend

unfoldable pub decide : Policy → Addr → Result FrameError (Bytes × Conn) → Decision
decide policy ip (err (malformed _)) = refuse (answered status_malformed)
decide policy ip (err _) = refuse silent
decide policy ip (ok (service, _)) = on_grant service (resolve policy ip service)

-- `limiter.track(live)`
unfoldable pub register : ℕ → ℕ → Server → Server
register c l s = on_limiter l (track c) s

-- The check that the limiter is still the one in force for the address.
unfoldable pub still_in_force : Addr → ℕ → Server → Bool
still_in_force ip l s = elim (limiter_for s ip) [ none ↦ false | some current ↦ nat_beq current l ]

-- The deferred calls on the limiter: `untrack` where the connection is registered, then `release`.
unfoldable pub leave : ℕ → ℕ → Server → Server
leave c l s = on_limiter l (λ p. release (untrack c p)) s

unfoldable pub leave_unregistered : ℕ → Server → Server
leave_unregistered l s = on_limiter l release s
