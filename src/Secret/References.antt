-- ===== src/Secret/References.antt =====
-- secret.go, `parseSecretRef`: the shape of a reference.
use gocloak.Base.{
  ℕ, suc, ◌≡◌, ◌≢◌, ◌↔◌, refl, Bool, true, false, Bytes, [], ◌∷◌, ◌++◌, Option, none, some, ok,
  arith, All, take, drop, index_byte, index_byte-eq-some, index_byte-append, take-append, length,
}
use gocloak.Secret.{SecretRef, valid_scheme_bytes, valid_scheme_name, split_ref, parse_secret_ref}

-- A reference with its scheme and payload: the scheme ends at the first colon.
pub record IsReference (ref : SecretRef) (scheme payload : Bytes) : Type 0 where
  pub splits : ref ≡ scheme ++ (b':' ∷ payload)
  pub valid : valid_scheme_name scheme ≡ true
  pub first : All (λ c. c ≢ b':') scheme
  pub filled : payload ≢ []

split_ref-IsReference :
    (ref : SecretRef) (at : Option ℕ) (scheme payload : Bytes)
    → index_byte b':' ref ≡ at
    → split_ref ref at ≡ ok (scheme, payload)
    → IsReference ref scheme payload
unfolding split_ref
split_ref-IsReference ref none scheme payload e h = cc
split_ref-IsReference ref (some i) scheme payload e h =
    let (splits, before) = index_byte-eq-some b':' ref i e in
    let scheme_is : take i ref ≡ scheme = ground arith in
    let payload_is : drop (suc i) ref ≡ payload = ground arith in
    record {
      splits = rw (← scheme_is, ← payload_is) splits;
      valid = ground arith;
      first = rw (← scheme_is) before;
      filled = λ q. ground arith;
    }

pub parse_secret_ref-IsReference :
    (ref : SecretRef) (scheme payload : Bytes)
    → parse_secret_ref ref ≡ ok (scheme, payload)
    → IsReference ref scheme payload
unfolding parse_secret_ref
parse_secret_ref-IsReference [] scheme payload h = cc
parse_secret_ref-IsReference (c ∷ cs) scheme payload h =
    split_ref-IsReference (c ∷ cs) (index_byte b':' (c ∷ cs)) scheme payload refl h

drop_past : (xs ys : Bytes) (b : ℕ) → drop (suc (length xs)) (xs ++ (b ∷ ys)) ≡ ys
drop_past [] ys b = refl
drop_past (x ∷ xs) ys b = drop_past xs ys b

split_ref-append :
    (scheme payload : Bytes)
    → valid_scheme_name scheme ≡ true
    → payload ≢ []
    → split_ref (scheme ++ (b':' ∷ payload)) (some (length scheme)) ≡ ok (scheme, payload)
unfolding split_ref
split_ref-append scheme [] v f = absurd (f refl)
split_ref-append scheme (c ∷ payload) v f = rw (
  take-append (length scheme) scheme (b':' ∷ c ∷ payload) refl,
  drop_past scheme (c ∷ payload) b':',
  v,
)

pub parse_secret_ref-append :
    (scheme payload : Bytes)
    → valid_scheme_name scheme ≡ true
    → All (λ c. c ≢ b':') scheme
    → payload ≢ []
    → parse_secret_ref (scheme ++ (b':' ∷ payload)) ≡ ok (scheme, payload)
unfolding parse_secret_ref valid_scheme_name
parse_secret_ref-append [] payload v first f = cc
parse_secret_ref-append (c ∷ cs) payload v first f =
    rw (index_byte-append b':' (c ∷ cs) payload first) (split_ref-append (c ∷ cs) payload v f)

valid_scheme_bytes-no_colon :
    (later : Bool) (s : Bytes) → valid_scheme_bytes later s ≡ true → All (λ c. c ≢ b':') s
unfolding valid_scheme_bytes
valid_scheme_bytes-no_colon later [] h = tt
valid_scheme_bytes-no_colon later (c ∷ cs) h =
    ((λ e. ground arith), valid_scheme_bytes-no_colon true cs (ground arith))

pub valid_scheme_name-no_colon : (s : Bytes) → valid_scheme_name s ≡ true → All (λ c. c ≢ b':') s
unfolding valid_scheme_name
valid_scheme_name-no_colon [] h = cc
valid_scheme_name-no_colon (c ∷ cs) h = valid_scheme_bytes-no_colon false (c ∷ cs) h

-- `parseSecretRef` succeeds exactly on a valid scheme, a colon, and a payload that is not empty, and
-- returns the two parts; the payload may hold more colons.
pub parse_secret_ref_iff :
    (ref : SecretRef) (scheme payload : Bytes)
    → (parse_secret_ref ref ≡ ok (scheme, payload))
      ↔ ((ref ≡ scheme ++ (b':' ∷ payload)) × (valid_scheme_name scheme ≡ true) × (payload ≢ []))
parse_secret_ref_iff ref scheme payload = (
  (λ h. let r = parse_secret_ref-IsReference ref scheme payload h in (r.splits, r.valid, r.filled)),
  λ (e, v, f).
      rw e (parse_secret_ref-append scheme payload v (valid_scheme_name-no_colon scheme v) f),
)
