-- ===== src/Base/Pigeonhole.antt =====
-- A list whose elements have different numbers below a bound is no longer than the bound.
use Prim.Native.Nat.{ℕ, zero, suc, ◌≤◌, ◌<◌}
use mathlib.Core.List.{List, [], ◌∷◌}
use mathlib.Core.Logic.{◌≢◌}
use mathlib.Core.Path.{◌≡◌, refl}
use native.Mathlib.Omega.{arith}
use gocloak.Base.Lists.{length, All}
use gocloak.Base.Tests.{nat_beq, if◌then◌else◌}

module _ {ℓ} {A : Type ℓ} (f : A → ℕ) where
  abbrev pub AllDiffer : List A → Type 0
  AllDiffer [] = Unit
  AllDiffer (x ∷ xs) = All (λ y. f x ≢ f y) xs × AllDiffer xs

  without : ℕ → List A → List A
  without n [] = []
  without n (x ∷ xs) = if nat_beq (f x) n then without n xs else x ∷ without n xs

  length-without_none :
      (n : ℕ) (xs : List A) (x : A)
      → f x ≡ n
      → All (λ y. f x ≢ f y) xs
      → length (without n xs) ≡ length xs
  unfolding without
  length-without_none n [] x e h = refl
  length-without_none n (y ∷ xs) x e h = ground (arith, length-without_none n xs x e h.1)

  length-without : (n : ℕ) (xs : List A) → AllDiffer xs → length xs ≤ suc (length (without n xs))
  unfolding without
  length-without n [] h = omega arith
  length-without n (x ∷ xs) h = ground (arith, length-without_none n xs x, length-without n xs h.1)

  without-All : (P : A → Type 0) (n : ℕ) (xs : List A) → All P xs → All P (without n xs)
  unfolding without
  without-All P n [] h = tt
  without-All P n (x ∷ xs) h = ground (arith, without-All P n xs h.1)

  without-AllDiffer : (n : ℕ) (xs : List A) → AllDiffer xs → AllDiffer (without n xs)
  unfolding without
  without-AllDiffer n [] h = tt
  without-AllDiffer n (x ∷ xs) h =
      ground (arith, without-AllDiffer n xs h.1, without-All (λ y. f x ≢ f y) n xs h.0)

  without-lt : (n : ℕ) (xs : List A) → All (λ x. f x < suc n) xs → All (λ x. f x < n) (without n xs)
  unfolding without
  without-lt n [] h = tt
  without-lt n (x ∷ xs) h = ground (arith, without-lt n xs h.1)

  pub pigeonhole : (n : ℕ) (xs : List A) → AllDiffer xs → All (λ x. f x < n) xs → length xs ≤ n
  pigeonhole zero [] d h = omega arith
  pigeonhole zero (x ∷ xs) d h = absurd (omega (arith, h.0))
  pigeonhole (suc n) xs d h = omega (
    arith,
    length-without n xs d,
    pigeonhole n (without n xs) (without-AllDiffer n xs d) (without-lt n xs h),
  )
