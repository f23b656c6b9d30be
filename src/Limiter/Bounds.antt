-- ===== src/Limiter/Bounds.antt =====
-- server.go, `peerLimiter`: the bucket and the slots stay within the limits.
use gocloak.Base.{ℕ, ◌+◌, ◌-◌, ◌*◌, ◌≤◌, ◌<◌, ◌≡◌, refl, Bytes, arith}
use gocloak.Limiter.{
  Limits, Limiter, Verdict, allowed, refused, dials_per_second, max_concurrent, one_token,
  set_limits, new_peer_limiter, refill, spend, acquire, release, track, untrack, drain_live,
}

-- The bucket holds at most one second's worth of tokens.
pub record IsLimiter (p : Limiter) : Type 0 where
  pub full : p.burst ≡ p.rate * one_token
  pub bucket : p.tokens ≤ p.burst

pub new_peer_limiter-IsLimiter :
    (key : Bytes) (l : Limits) (now : ℕ) → IsLimiter (new_peer_limiter key l now)
unfolding new_peer_limiter
new_peer_limiter-IsLimiter key l now = ground arith

-- Every operation of a well-formed limiter keeps its burst at one second's worth and the bucket within the burst,
-- a change of the limits included.
pub IsLimiter-kept :
    (p : Limiter)
    → IsLimiter p
    → ((now : ℕ) → IsLimiter (acquire now p).0)
      × ((l : Limits) → IsLimiter (set_limits l p))
      × IsLimiter (release p)
      × ((c : ℕ) → IsLimiter (track c p) × IsLimiter (untrack c p))
      × IsLimiter (drain_live p).0
unfolding acquire refill spend set_limits release track untrack drain_live
IsLimiter-kept p v = (
  (λ now. ground arith),
  (λ l. ground arith),
  ground arith,
  (λ c. (record { full = v.full; bucket = v.bucket }, record { full = v.full; bucket = v.bucket })),
  record { full = v.full; bucket = v.bucket },
)

-- The units in the bucket at time `now`.
abbrev pub available : ℕ → Limiter → ℕ
available now p = (refill now p).tokens

-- What a dial at this time does, by its verdict: the condition, and the slots and tokens left.
abbrev pub IsOutcome : ℕ → Limiter → Limiter × Verdict → Type 0
IsOutcome now p (q, allowed) =
    (one_token ≤ available now p)
    × (p.active < p.max_concurrent)
    × (q.active ≡ p.active + 1)
    × (q.tokens + one_token ≡ available now p)
IsOutcome now p (q, refused max_concurrent) =
    (one_token ≤ available now p)
    × (p.max_concurrent ≤ p.active)
    × (q.active ≡ p.active)
    × (q.tokens + one_token ≡ available now p)
IsOutcome now p (q, refused dials_per_second) =
    (available now p < one_token) × (q.active ≡ p.active) × (q.tokens ≡ available now p)

-- A dial is allowed where a whole token is there and a slot is free, and takes one of each; with no slot
-- free it is refused and spends the token all the same; with no token it is refused and takes nothing.
pub acquire_verdicts : (now : ℕ) (p : Limiter) → IsOutcome now p (acquire now p)
unfolding acquire refill spend
acquire_verdicts now p = split (acquire now p) refl
  where
    split : (r : Limiter × Verdict) → acquire now p ≡ r → IsOutcome now p r
    split (q, allowed) e = (ground arith, ground arith, ground arith, ground arith)
    split (q, refused max_concurrent) e = (ground arith, ground arith, ground arith, ground arith)
    split (q, refused dials_per_second) e = (ground arith, ground arith, ground arith)

-- A well-formed limiter with a free slot and a rate of at least one, whose last dial is one token's time
-- ago or longer, allows the next dial.
pub acquire_recovers :
    (now : ℕ) (p : Limiter)
    → IsLimiter p
    → p.active < p.max_concurrent
    → 1 ≤ p.rate
    → p.last < now
    → one_token ≤ (now - p.last) * p.rate
    → (acquire now p).1 ≡ allowed
unfolding acquire refill spend
acquire_recovers now p v slot some_rate later waited = ground arith
