-- ===== src/Base/Maps.antt =====
-- A Go map as an association list; the first entry of a key is the one in force.
use mathlib.Core.Bool.{Bool, true, false, ◌||◌}
use mathlib.Core.List.{List, [], ◌∷◌}
use mathlib.Core.Option.{Option, none, some}
use mathlib.Core.Path.{◌≡◌, refl}
use native.Mathlib.Omega.{arith}
use gocloak.Base.Classes.{Eq, ◌==◌}
use gocloak.Base.Tests.{if◌then◌else◌}

module _ {ℓ κ} {K : Type ℓ} {V : Type κ} ⦃e : Eq K⦄ where
  -- `v, ok := m[k]`
  unfoldable pub lookup : K → List (K × V) → Option V
  lookup key [] = none
  lookup key ((i, value) ∷ rest) = if i == key then some value else lookup key rest

  -- `m[k] = v`
  unfoldable pub insert : K → V → List (K × V) → List (K × V)
  insert key new [] = (key, new) ∷ []
  insert key new ((i, old) ∷ rest) =
      if i == key then (key, new) ∷ rest else (i, old) ∷ insert key new rest

  pub lookup-insert :
      (key other : K) (new : V) (rest : List (K × V))
      → lookup other (insert key new rest) ≡ (if key == other then some new else lookup other rest)
  unfolding lookup insert
  lookup-insert key other new [] = refl
  lookup-insert key other new ((i, old) ∷ rest) = ground (
    arith,
    lookup-insert key other new rest,
    e.beq_iff i other,
    e.beq_iff i key,
    e.beq_iff key other,
  )

  -- `_, ok := m[k]`
  abbrev pub has_key : K → List (K × V) → Bool
  has_key k m = elim (lookup k m) [ none ↦ false | some _ ↦ true ]

-- Membership in a list by Go's `==`.
module _ {ℓ} {A : Type ℓ} ⦃e : Eq A⦄ where
  unfoldable pub contains : List A → A → Bool
  contains [] wanted = false
  contains (x ∷ xs) wanted = x == wanted || contains xs wanted

-- A key stands once in the list.
module _ {K V : Type 0} ⦃e : Eq K⦄ where
  abbrev pub UniqueKeys : List (K × V) → Type 0
  UniqueKeys [] = Unit
  UniqueKeys ((j, v) ∷ m) = (lookup j m ≡ none) × UniqueKeys m

  pub insert-UniqueKeys :
      (k : K) (v : V) (m : List (K × V)) → UniqueKeys m → UniqueKeys (insert k v m)
  unfolding lookup insert
  insert-UniqueKeys k v [] u = (refl, tt)
  insert-UniqueKeys k v ((j, w) ∷ m) u =
      ground
        (arith, insert-UniqueKeys k v m u.1, lookup-insert k j v m, e.beq_iff j k, e.beq_iff k j)
