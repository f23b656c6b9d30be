-- ===== src/Limiter/Rate.antt =====
-- server.go, `acquire`: over any stretch of time the dials let through are bounded.
use gocloak.Base.{ℕ, ◌+◌, ◌-◌, ◌*◌, ◌≤◌, ◌≡◌, ap, ◌∙◌, Bytes, List, [], ◌∷◌, arith}
use gocloak.Limiter.{
  Limits, Limiter, Verdict, allowed, refused, one_token, new_peer_limiter, refill, spend, acquire,
  release, track, untrack,
}

-- What may happen to a limiter between two reloads.
pub data Call : Type 0 where
  acquires releases tracks untracks : ℕ → Call

unfoldable pub call : Call → Limiter → Limiter
call (acquires now) p = (acquire now p).0
call (releases _) p = release p
call (tracks c) p = track c p
call (untracks c) p = untrack c p

unfoldable pub calls : List Call → Limiter → Limiter
calls [] p = p
calls (c ∷ cs) p = calls cs (call c p)

-- 1 for a dial that is let through.
abbrev pub let_through : Verdict → ℕ
let_through allowed = 1
let_through (refused _) = 0

abbrev pub admits : Call → Limiter → ℕ
admits (acquires now) p = let_through (acquire now p).1
admits _ p = 0

-- How many dials a history lets through.
unfoldable pub admitted : List Call → Limiter → ℕ
admitted [] p = 0
admitted (c ∷ cs) p = admits c p + admitted cs (call c p)

sub-mul-add : (a b k : ℕ) → a ≤ b → (b - a) * k + a * k ≡ b * k
sub-mul-add a b k h =
    let e : (b - a) + a ≡ b = omega arith in omega (arith, ap (λ (t : ℕ). t * k) e)

-- One call: tokens come by the clock only, and each dial let through costs one.
record Paid (p q : Limiter) (n : ℕ) : Type 0 where
  later : p.last ≤ q.last
  same_rate : q.rate ≡ p.rate
  paid : q.tokens + n * one_token + p.last * p.rate ≤ p.tokens + q.last * p.rate

call-Paid : (c : Call) (p : Limiter) → Paid p (call c p) (admits c p)
unfolding call acquire refill spend release track untrack
call-Paid (acquires now) p = ground (arith, sub-mul-add p.last now p.rate)
call-Paid (releases _) p = ground arith
call-Paid (tracks c) p = ground arith
call-Paid (untracks c) p = ground arith

Paid-trans : (p q r : Limiter) (n m : ℕ) → Paid p q n → Paid q r m → Paid p r (n + m)
Paid-trans p q r n m a b = record {
  later = omega (arith, a.later, b.later);
  same_rate = b.same_rate ∙ a.same_rate;
  paid =
      let second : r.tokens + m * one_token + q.last * p.rate ≤ q.tokens + r.last * p.rate =
        rw a.same_rate at b.paid in
      omega (arith, a.paid, second);
}

calls-Paid : (cs : List Call) (p : Limiter) → Paid p (calls cs p) (admitted cs p)
unfolding calls admitted
calls-Paid [] p = ground arith
calls-Paid (c ∷ cs) p = Paid-trans p (call c p) _ _ _ (call-Paid c p) (calls-Paid cs (call c p))

-- However the dials, releases and registrations of a peer are ordered and timed, from a new limiter on,
-- the dials let through are at most its rate for each second that has passed, and one burst.
pub admitted_bound :
    (key : Bytes) (l : Limits) (start : ℕ) (cs : List Call)
    → let p = new_peer_limiter key l start in
      admitted cs p * one_token
      ≤ l.dials_per_second * one_token + ((calls cs p).last - start) * l.dials_per_second
unfolding new_peer_limiter
admitted_bound key l start cs =
    let p = new_peer_limiter key l start in
    let paid = calls-Paid cs p in
    let passed = sub-mul-add start (calls cs p).last l.dials_per_second paid.later in
    omega (arith, paid.paid, passed)
