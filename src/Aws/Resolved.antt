-- ===== src/Aws/Resolved.antt =====
-- awssecrets/awssecrets.go, `ResolveSecret`: which references resolve, and to what.
use gocloak.Base.{
  suc, ◌≡◌, ◌≢◌, ◌↔◌, ◌⊎◌, inl, inr, refl, ◌∙◌, true, false, Bytes, [], ◌∷◌, ◌++◌, some, ok, arith,
  All, codes, length, take, drop, take-append, index_byte, index_byte-eq-some, index_byte-append,
  bytes_beq, bytes_beq_iff, Option-cases, Result-cases, Bool-cases,
}
use gocloak.Aws.{Resolver, cut, parse_ref, secrets_manager, ssm_parameter, resolve_aws}
use gocloak.Secret.{SecretRef, is_empty}

cut-eq-some :
    (s : Bytes) (p : Bytes × Bytes)
    → cut s ≡ some p
    → (s ≡ p.0 ++ (b':' ∷ p.1)) × All (λ c. c ≢ b':') p.0
unfolding cut
cut-eq-some s (head, rest) h = elim (Option-cases (index_byte b':' s)) [
  | inl e ↦ absurd (ground arith)
  | inr (i, e) ↦
      let (splits, before) = index_byte-eq-some b':' s i e in
      let at_head : take i s ≡ head = ground arith in
      let at_rest : drop (suc i) s ≡ rest = ground arith in
      (rw (← at_head, ← at_rest) splits, rw (← at_head) before)
]

drop-after : (head rest : Bytes) → drop (suc (length head)) (head ++ (b':' ∷ rest)) ≡ rest
drop-after [] rest = refl
drop-after (c ∷ head) rest = drop-after head rest

cut-append :
    (head rest : Bytes) → All (λ c. c ≢ b':') head → cut (head ++ (b':' ∷ rest)) ≡ some (head, rest)
unfolding cut
cut-append head rest v = ground (
  arith,
  index_byte-append b':' head rest v,
  drop-after head rest,
  take-append (length head) head (b':' ∷ rest) refl,
)

not_empty : (s : Bytes) → s ≢ [] → is_empty s ≡ false
not_empty [] h = absurd (h refl)
not_empty (c ∷ s) h = refl

-- The reference is `aws:`, the sub-scheme, a colon and the payload.
abbrev reference : Bytes → Bytes → Bytes
reference sub payload = codes "aws:" ++ (sub ++ (b':' ∷ payload))

parse_ref_iff :
    (s sub payload : Bytes)
    → (parse_ref s ≡ ok (codes "aws:" ++ sub, payload))
      ↔ ((s ≡ reference sub payload) × (sub ≢ []) × (payload ≢ []) × All (λ c. c ≢ b':') sub)
unfolding parse_ref
parse_ref_iff s sub payload = (to, from)
  where
    to :
        parse_ref s ≡ ok (codes "aws:" ++ sub, payload)
        → (s ≡ reference sub payload) × (sub ≢ []) × (payload ≢ []) × All (λ c. c ≢ b':') sub
    to h = elim (Option-cases (cut s)) [
      | inl e ↦ absurd (ground arith)
      | inr ((head, rest), e) ↦
          let (at_colon, _) = cut-eq-some s (head, rest) e in
          let aws : head ≡ codes "aws" = ground (arith, bytes_beq_iff head (codes "aws")) in
          elim (Option-cases (cut rest)) [
            | inl f ↦ absurd (ground arith)
            | inr ((sub', payload'), f) ↦
                let (at_next, no_colon) = cut-eq-some rest (sub', payload') f in
                let (some_sub, some_payload) : (is_empty sub' ≡ false)
                    × (is_empty payload' ≡ false) =
                  (ground arith, ground arith) in
                let same : sub' ≡ sub = ground arith in
                let same' : payload' ≡ payload = ground arith in
                (
                  rw (← same, ← same') (at_colon ∙ rw aws (rw at_next refl)),
                  rw (← same) (λ q. ground arith),
                  rw (← same') (λ q. ground arith),
                  rw (← same) no_colon,
                )
          ]
    ]

    from :
        (s ≡ reference sub payload) × (sub ≢ []) × (payload ≢ []) × All (λ c. c ≢ b':') sub
        → parse_ref s ≡ ok (codes "aws:" ++ sub, payload)
    from (e, some_sub, some_payload, v) =
        let outer : cut (reference sub payload) ≡ some (codes "aws", sub ++ (b':' ∷ payload)) =
          cut-append (codes "aws") (sub ++ (b':' ∷ payload))
            ((λ q. ground arith), ((λ q. ground arith), ((λ q. ground arith), tt))) in
        let inner = cut-append sub payload v in
        let aws : bytes_beq (codes "aws") (codes "aws") ≡ true =
          (bytes_beq_iff (codes "aws") (codes "aws")).1 refl in
        rw e (
          ground (arith, outer, inner, aws, not_empty sub some_sub, not_empty payload some_payload))

-- The reference names this payload in one of the two stores, and the store gives the value.
abbrev pub Stored : Resolver → SecretRef → Bytes → Bytes → Type 0
Stored r ref value payload =
    ((ref ≡ codes "aws:sm:" ++ payload) × (secrets_manager r payload ≡ ok value))
    ⊎ ((ref ≡ codes "aws:ssm:" ++ payload) × (ssm_parameter r payload ≡ ok value))

parse_ref-eq-ok :
    (s : SecretRef) (scheme payload : Bytes)
    → parse_ref s ≡ ok (scheme, payload)
    → (sub : Bytes) × (scheme ≡ codes "aws:" ++ sub)
unfolding parse_ref
parse_ref-eq-ok s scheme payload h = elim (Option-cases (cut s)) [
  | inl e ↦ absurd (ground arith)
  | inr ((head, rest), e) ↦ elim (Option-cases (cut rest)) [
    | inl f ↦ absurd (ground arith)
    | inr ((sub, p), f) ↦ (sub, ground arith)
  ]
]

-- `ResolveSecret` gives a value exactly for a reference `aws:sm:` or `aws:ssm:` with a payload that is not
-- empty and that this store has the value for. The payload may hold colons.
pub resolve_aws_iff :
    (r : Resolver) (ref : SecretRef) (value : Bytes)
    → (resolve_aws r ref ≡ ok value)
      ↔ ((payload : Bytes) × (payload ≢ []) × Stored r ref value payload)
unfolding resolve_aws
resolve_aws_iff r ref value = (to, from)
  where
    to :
        resolve_aws r ref ≡ ok value
        → (payload : Bytes) × (payload ≢ []) × Stored r ref value payload
    to h = elim (Result-cases (parse_ref ref)) [
      | inr (x, e) ↦ absurd (ground arith)
      | inl ((scheme, payload), e) ↦
          let (sub, is_aws) = parse_ref-eq-ok ref scheme payload e in
          let (shape, _, some_payload, _) = (parse_ref_iff ref sub payload).0 (ground arith) in
          elim (Bool-cases (bytes_beq scheme (codes "aws:sm"))) [
            | inl sm ↦
                let is_sm : sub ≡ codes "sm" =
                  ground (arith, bytes_beq_iff scheme (codes "aws:sm")) in
                (payload, some_payload, inl (shape ∙ rw is_sm refl, ground arith))
            | inr other ↦
                let ssm : bytes_beq scheme (codes "aws:ssm") ≡ true = ground arith in
                let is_ssm : sub ≡ codes "ssm" =
                  ground (arith, bytes_beq_iff scheme (codes "aws:ssm")) in
                (payload, some_payload, inr (shape ∙ rw is_ssm refl, ground arith))
          ]
    ]

    from :
        (payload : Bytes) × (payload ≢ []) × Stored r ref value payload
        → resolve_aws r ref ≡ ok value
    from (payload, some_payload, inl (e, got)) =
        let split = (parse_ref_iff ref (codes "sm") payload).1 (
          e,
          (λ q. ground arith),
          some_payload,
          ((λ q. ground arith), ((λ q. ground arith), tt)),
        ) in
        ground (arith, split, bytes_beq_iff (codes "aws:sm") (codes "aws:sm"))
    from (payload, some_payload, inr (e, got)) =
        let split = (parse_ref_iff ref (codes "ssm") payload).1 (
          e,
          (λ q. ground arith),
          some_payload,
          ((λ q. ground arith), ((λ q. ground arith), ((λ q. ground arith), tt))),
        ) in
        ground (
          arith,
          split,
          bytes_beq_iff (codes "aws:ssm") (codes "aws:sm"),
          bytes_beq_iff (codes "aws:ssm") (codes "aws:ssm"),
        )
