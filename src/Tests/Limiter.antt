-- ===== src/Tests/Limiter.antt =====
-- server.go, `peerLimiter`, at one dial per second and two slots.
use gocloak.Base.{◌*◌, ◌+◌, ◌-◌, ◌≡◌, ◌≤◌, refl, codes, [], ◌∷◌, arith}
use gocloak.Limiter.Bounds.{acquire_recovers}
use gocloak.Limiter.Rate.{acquires, releases, calls, admitted, admitted_bound}
use gocloak.Limiter.{Limits, Limiter, one_token, new_peer_limiter, allowed, acquire}

abbrev limits : Limits
limits = record { max_concurrent = 2; dials_per_second = 1 }

abbrev fresh : Limiter
fresh = new_peer_limiter (codes "AAAA") limits 0

-- No token left, and one second later.
abbrev spent : Limiter
spent = record {
  public_key = codes "AAAA";
  max_concurrent = 2;
  rate = 1;
  burst = one_token;
  tokens = 0;
  last = 0;
  active = 1;
  live = [];
}

acquire_recovers_example : (acquire 1_000_000_000 spent).1 ≡ allowed
acquire_recovers_example =
    acquire_recovers 1_000_000_000 spent (record { full = refl; bucket = omega arith })
      (omega arith) (omega arith) (omega arith) (omega arith)

admitted_bound_example :
    admitted (acquires 0 ∷ releases 0 ∷ acquires 7 ∷ []) fresh * one_token
    ≤ 1 * one_token + ((calls (acquires 0 ∷ releases 0 ∷ acquires 7 ∷ []) fresh).last - 0) * 1
admitted_bound_example =
    admitted_bound (codes "AAAA") limits 0 (acquires 0 ∷ releases 0 ∷ acquires 7 ∷ [])
