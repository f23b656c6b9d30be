-- ===== src/Server/System/Sets.antt =====
-- The set of live connections under `track`, `untrack` and appends.
use gocloak.Base.{
  ℕ, ◌≡◌, refl, true, false, ◌||◌, List, [], ◌∷◌, ◌++◌, arith, contains, nat_eq, nat_beq,
  if◌then◌else◌,
}
use gocloak.Limiter.{delete}

pub contains-append :
    (xs ys : List ℕ) (a : ℕ) → contains (xs ++ ys) a ≡ (contains xs a || contains ys a)
unfolding contains
contains-append [] ys a = refl
contains-append (x ∷ xs) ys a = ground (arith, contains-append xs ys a)

pub contains-delete :
    (c a : ℕ) (xs : List ℕ)
    → contains (delete c xs) a ≡ (if nat_beq c a then false else contains xs a)
unfolding contains delete
contains-delete c a [] = ground arith
contains-delete c a (x ∷ xs) = ground (arith, contains-delete c a xs)

pub contains-track :
    (c a : ℕ) (xs : List ℕ)
    → contains (if contains xs c then xs else c ∷ xs) a
      ≡ (if nat_beq c a then true else contains xs a)
unfolding contains
contains-track c a xs = ground arith
