-- ===== src/Limiter.antt =====
-- server.go, `peerLimiter`: a peer's token bucket, its concurrency slots and its live connections.
-- The source counts tokens in float64. Here a token is 10 ^ 9 units and a time is in nanoseconds, so
-- `elapsed.Seconds() * rate` is the product of two numbers, exactly; rounding is not modelled.
pub mod Bounds
pub mod Rate
use gocloak.Base.{
  ℕ, ◌+◌, ◌-◌, ◌*◌, Bool, true, false, Bytes, List, [], ◌∷◌, contains, nat_eq, nat_beq,
  if◌then◌else◌, ltb, leb,
}

-- `peerLimits`; a validated configuration holds no negative value.
pub record Limits : Type 0 where
  pub max_concurrent : ℕ
  pub dials_per_second : ℕ

-- `peerLimiter`; a connection in `live` is named by a number.
pub record Limiter : Type 0 where
  pub public_key : Bytes
  pub max_concurrent : ℕ
  pub rate : ℕ
  pub burst : ℕ
  pub tokens : ℕ
  pub last : ℕ
  pub active : ℕ
  pub live : List ℕ

abbrev pub one_token : ℕ
one_token = 1_000_000_000

-- `setLimits`
unfoldable pub set_limits : Limits → Limiter → Limiter
set_limits l p =
    let burst = l.dials_per_second * one_token in
    record p {
      max_concurrent = l.max_concurrent;
      rate = l.dials_per_second;
      burst = burst;
      tokens = if ltb burst p.tokens then burst else p.tokens;
    }

-- `newPeerLimiter`, at time `now`
unfoldable pub new_peer_limiter : Bytes → Limits → ℕ → Limiter
unfolding set_limits
new_peer_limiter key l now =
    let p = set_limits l (record {
      public_key = key;
      max_concurrent = 0;
      rate = 0;
      burst = 0;
      tokens = 0;
      last = now;
      active = 0;
      live = [];
    }) in
    record p { tokens = p.burst }

-- Which cap refused.
pub data Cap : Type 0 where
  dials_per_second max_concurrent : Cap

pub data Verdict : Type 0 where
  allowed : Verdict
  refused : Cap → Verdict

-- The first half of `acquire`: the bucket fills up with the time that has passed.
unfoldable pub refill : ℕ → Limiter → Limiter
refill now p =
    if ltb p.last now
    then (let filled = p.tokens + (now - p.last) * p.rate in
        record p { last = now; tokens = if ltb p.burst filled then p.burst else filled })
    else p

-- The second half: a token is spent before the slot is asked for.
unfoldable pub spend : Limiter → Limiter × Verdict
spend p =
    if ltb p.tokens one_token
    then (p, refused dials_per_second)
    else (let spent = record p { tokens = p.tokens - one_token } in
        if leb p.max_concurrent p.active
        then (spent, refused max_concurrent)
        else (record spent { active = p.active + 1 }, allowed))

-- `acquire`
unfoldable pub acquire : ℕ → Limiter → Limiter × Verdict
acquire now p = spend (refill now p)

-- `release`
unfoldable pub release : Limiter → Limiter
release p = if ltb 0 p.active then record p { active = p.active - 1 } else p

-- `track`
unfoldable pub track : ℕ → Limiter → Limiter
track c p = record p { live = if contains p.live c then p.live else c ∷ p.live }

unfoldable pub delete : ℕ → List ℕ → List ℕ
delete c [] = []
delete c (x ∷ xs) = if nat_beq x c then delete c xs else x ∷ delete c xs

-- `untrack`
unfoldable pub untrack : ℕ → Limiter → Limiter
untrack c p = record p { live = delete c p.live }

-- `closeLive` up to the closes: the set is emptied under the lock, and its connections are returned to
-- be closed.
unfoldable pub drain_live : Limiter → Limiter × List ℕ
drain_live p = (record p { live = [] }, p.live)
