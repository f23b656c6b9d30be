-- ===== src/Base/Strings.antt =====
-- Package strings over byte lists.
use Prim.Native.Nat.{ℕ, zero, suc}
use mathlib.Core.Bool.{Bool, true, false, ◌&&◌}
use mathlib.Core.List.{List, [], ◌∷◌, ◌++◌}
use mathlib.Core.Option.{Option, none, some}
use mathlib.Core.Option
use mathlib.Core.Path.{◌≡◌, refl, ap}
use mathlib.Core.Logic.{◌≢◌, inl, inr}
use native.Mathlib.Omega.{arith}
use gocloak.Base.Classes.{Bytes}
use gocloak.Base.Lists.{length, take, drop, All}
use gocloak.Base.Tests.{nat_beq, Option-cases, if◌then◌else◌}

-- `strings.IndexByte`; `none` is its -1.
unfoldable pub index_byte : ℕ → Bytes → Option ℕ
index_byte b [] = none
index_byte b (x ∷ xs) = if nat_beq x b then some 0 else Option.map suc (index_byte b xs)

-- Where the byte is found, the text splits there, and the part in front holds no such byte.
pub index_byte-eq-some :
    (b : ℕ) (s : Bytes) (i : ℕ)
    → index_byte b s ≡ some i
    → (s ≡ take i s ++ (b ∷ drop (suc i) s)) × All (λ c. c ≢ b) (take i s)
unfolding index_byte
index_byte-eq-some b [] i h = cc
index_byte-eq-some b (x ∷ xs) zero h = elim (Option-cases (index_byte b xs)) [
  | inl e ↦ (ground arith, tt)
  | inr (j, e) ↦ (ground arith, tt)
]
index_byte-eq-some b (x ∷ xs) (suc i) h = elim (Option-cases (index_byte b xs)) [
  | inl e ↦ absurd (ground arith)
  | inr (j, e) ↦
      let (splits, before) = index_byte-eq-some b xs i (ground (arith, e)) in
      (ap (◌∷◌ x) splits, ((λ q. ground arith), before))
]

pub index_byte-append :
    (b : ℕ) (xs ys : Bytes) → All (λ c. c ≢ b) xs → index_byte b (xs ++ (b ∷ ys)) ≡ some (length xs)
unfolding index_byte
index_byte-append b [] ys v = ground arith
index_byte-append b (x ∷ xs) ys v = ground (arith, index_byte-append b xs ys v.1)

pub index_byte-none : (b : ℕ) (s : Bytes) → All (λ c. c ≢ b) s → index_byte b s ≡ none
unfolding index_byte
index_byte-none b [] v = refl
index_byte-none b (x ∷ xs) v = ground (arith, index_byte-none b xs v.1)

-- `strings.HasPrefix`
unfoldable pub has_prefix : Bytes → Bytes → Bool
has_prefix s [] = true
has_prefix [] (p ∷ ps) = false
has_prefix (x ∷ xs) (p ∷ ps) = nat_beq x p && has_prefix xs ps

-- `strings.Index`; `none` is its -1.
unfoldable pub index : Bytes → Bytes → Option ℕ
index [] p = if has_prefix [] p then some 0 else none
index (x ∷ xs) p = if has_prefix (x ∷ xs) p then some 0 else Option.map suc (index xs p)

abbrev or_here : Option ℕ → Bool → Option ℕ
or_here (some i) b = some (suc i)
or_here none true = some 0
or_here none false = none

-- `strings.LastIndex`
unfoldable pub last_index : Bytes → Bytes → Option ℕ
last_index [] p = if has_prefix [] p then some 0 else none
last_index (x ∷ xs) p = or_here (last_index xs p) (has_prefix (x ∷ xs) p)

-- `strings.Join`
unfoldable pub join : Bytes → List Bytes → Bytes
join sep [] = []
join sep (s ∷ []) = s
join sep (s ∷ t ∷ ss) = s ++ (sep ++ join sep (t ∷ ss))
