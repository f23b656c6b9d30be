-- ===== src/Server/Scrub/Hidden.antt =====
-- server.go, `scrubRef`: what is behind the last colon of a reference does not come through.
use gocloak.Base.{
  ℕ, zero, suc, ◌-◌, ◌≡◌, ◌≢◌, refl, true, false, Bytes, [], ◌∷◌, ◌++◌, none, some, arith, length,
  has_prefix, nat_beq, index, All, Bool-cases, inl, inr, if◌then◌else◌, Option-cases,
}
use gocloak.Secret.{is_empty}
use gocloak.Server.Scrub.{placeholder, replace_run, replace_all, scrub_suffixes, scrub_ref}

-- A byte that stands in the placeholder.
abbrev pub Foreign : ℕ → Type 0
Foreign c = All (λ d. d ≢ c) placeholder

index-skip :
    (a b : Bytes) (o : ℕ) (q : Bytes)
    → All (λ d. d ≢ o) a
    → index b (o ∷ q) ≡ none
    → index (a ++ b) (o ∷ q) ≡ none
unfolding index has_prefix
index-skip [] b o q v e = e
index-skip (d ∷ a) b o q v e = ground (arith, index-skip a b o q v.1 e)

-- What a replaced text starts with, the text started with, if no placeholder fits in.
has_prefix-replace_run :
    (old s p : Bytes)
    → All (λ c. c ≢ b'[') p
    → has_prefix (replace_run old placeholder 0 s) p ≡ true
    → has_prefix s p ≡ true
unfolding replace_run has_prefix
has_prefix-replace_run old s [] v e = refl
has_prefix-replace_run old [] (c ∷ p) v e = e
has_prefix-replace_run old (d ∷ s) (c ∷ p) v e = elim (Bool-cases (has_prefix (d ∷ s) old)) [
  | inl here ↦ absurd (ground arith)
  | inr e' ↦ ground (arith, has_prefix-replace_run old s p v.1)
]

index-replace_run :
    (o : ℕ) (q : Bytes) (n : ℕ) (s : Bytes)
    → Foreign o
    → All (λ c. c ≢ b'[') (o ∷ q)
    → index (replace_run (o ∷ q) placeholder n s) (o ∷ q) ≡ none
unfolding replace_run index has_prefix
index-replace_run o q n [] f v = refl
index-replace_run o q (suc n) (c ∷ s) f v = index-replace_run o q n s f v
index-replace_run o q zero (c ∷ s) f v = elim (Bool-cases (has_prefix (c ∷ s) (o ∷ q))) [
  | inl here ↦
      let tail : Bytes = replace_run (o ∷ q) placeholder (length (o ∷ q) - 1) s in
      let step : replace_run (o ∷ q) placeholder zero (c ∷ s) ≡ placeholder ++ tail =
        ground arith in
      rw step (index-skip placeholder tail o q f (index-replace_run o q (length (o ∷ q) - 1) s f v))
  | inr none_here ↦
      ground
        (arith, index-replace_run o q zero s f v, has_prefix-replace_run (o ∷ q) (c ∷ s) (o ∷ q) v)
]

index-none : (s q : Bytes) → index s q ≡ none → has_prefix s q ≡ false
unfolding index
index-none [] q e = ground arith
index-none (x ∷ s) q e = ground arith

index-cons : (s : Bytes) (c : ℕ) (q : Bytes) → index s q ≡ none → index s (c ∷ q) ≡ none
unfolding index has_prefix
index-cons [] c q e = refl
index-cons (x ∷ s) c q e =
    let later : index s q ≡ none = elim (Option-cases (index s q)) [
      | inl none_later ↦ none_later
      | inr (i, found) ↦ absurd (ground arith)
    ] in
    ground (arith, index-cons s c q later, index-none s q later)

-- A text without the tail of another text is without that text.
index-longer : (s p q : Bytes) → index s q ≡ none → index s (p ++ q) ≡ none
index-longer s [] q e = e
index-longer s (c ∷ p) q e = index-cons s c (p ++ q) (index-longer s p q e)

module _ (spread : Bytes → Bytes) where
  scrub_suffixes-no_colon :
      (q msg : Bytes) → All (λ c. c ≢ b':') q → scrub_suffixes spread q msg ≡ msg
  unfolding scrub_suffixes
  scrub_suffixes-no_colon [] msg v = refl
  scrub_suffixes-no_colon (c ∷ q) msg v = ground (arith, scrub_suffixes-no_colon q msg v.1)

  -- The last replacement is that of the text behind the last colon.
  scrub_suffixes-last :
      (front q : Bytes) (o : ℕ) (msg : Bytes)
      → All (λ c. c ≢ b':') (o ∷ q)
      → (before : Bytes) × (scrub_suffixes spread (front ++ (b':' ∷ o ∷ q)) msg
          ≡ replace_all spread before (o ∷ q))
  unfolding scrub_suffixes
  scrub_suffixes-last [] q o msg v =
      (msg, scrub_suffixes-no_colon (o ∷ q) (replace_all spread msg (o ∷ q)) v)
  scrub_suffixes-last (c ∷ front) q o msg v = elim (Bool-cases (nat_beq c b':')) [
    | inl colon ↦
        let rest : Bytes = front ++ (b':' ∷ o ∷ q) in
        let (before, h) =
          scrub_suffixes-last front q o (if is_empty rest then msg else replace_all spread msg rest)
            v in
        (before, ground (arith, h))
    | inr other ↦
        let (before, h) = scrub_suffixes-last front q o msg v in (before, ground (arith, h))
  ]

  -- In the text that `scrubRef` gives for an error about a reference, neither the reference's part behind
  -- its last colon nor anything that ends in this part occurs, so neither does the reference itself or any
  -- of its parts behind a colon. The last part is not empty, holds no `[`, and starts with a byte that the
  -- placeholder does not hold.
  pub scrub_ref_hides :
      (front q : Bytes) (o : ℕ) (msg shown longer : Bytes)
      → All (λ c. c ≢ b':') (o ∷ q)
      → All (λ c. c ≢ b'[') (o ∷ q)
      → Foreign o
      → scrub_ref spread (front ++ (b':' ∷ o ∷ q)) (some msg) ≡ some shown
      → index shown (longer ++ (o ∷ q)) ≡ none
  unfolding scrub_ref replace_all
  scrub_ref_hides front q o msg shown longer v w f e =
      let ref : Bytes = front ++ (b':' ∷ o ∷ q) in
      let (before, last) = scrub_suffixes-last front q o (replace_all spread msg ref) v in
      let same : shown ≡ replace_run (o ∷ q) placeholder 0 before = ground arith in
      index-longer shown longer (o ∷ q) (rw same (index-replace_run o q 0 before f w))
