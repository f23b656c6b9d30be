-- ===== src/Secret.antt =====
-- secret.go: references to key material, and their resolution.
pub mod References
pub mod Resolution
use Prim.Native.Nat.{bit_and}
use gocloak.Base.{
  ℕ, suc, Bool, true, false, not, ◌&&◌, ◌||◌, Bytes, List, [], ◌∷◌, Option, none, some, Result, ok,
  err, ◌>>=◌, ◌>>◌, fail_if, map_err, codes, take, drop, index_byte, bytes_beq, nat_beq, leb,
  if◌then◌else◌,
}

-- `SecretRef`
abbrev pub SecretRef : Type 0
SecretRef = Bytes

pub data SecretError : Type 0 where
  empty_reference : SecretError
  no_scheme : SecretError
  bad_scheme : SecretError
  empty_payload : Bytes → SecretError
  needs_resolver : Bytes → SecretError
  resolver_failed : Bytes → SecretError
  resolver_empty : Bytes → SecretError
  file_error : Bytes → SecretError
  loose_permissions : Bytes → ℕ → SecretError
  env_not_set : Bytes → SecretError

abbrev is_lower : ℕ → Bool
is_lower c = leb b'a' c && leb c b'z'

abbrev is_later : ℕ → Bool
is_later c = (leb b'0' c && leb c b'9') || nat_beq c b'+' || nat_beq c b'-' || nat_beq c b'.'

-- The loop of `validSchemeName`; the flag is `i > 0`.
unfoldable pub valid_scheme_bytes : Bool → Bytes → Bool
valid_scheme_bytes later [] = true
valid_scheme_bytes later (c ∷ cs) =
    if is_lower c || (later && is_later c) then valid_scheme_bytes true cs else false

-- `validSchemeName`
unfoldable pub valid_scheme_name : Bytes → Bool
unfolding valid_scheme_bytes
valid_scheme_name [] = false
valid_scheme_name (c ∷ cs) = valid_scheme_bytes false (c ∷ cs)

abbrev pub is_empty : Bytes → Bool
is_empty [] = true
is_empty (_ ∷ _) = false

-- `parseSecretRef` from the position of the first colon on.
unfoldable pub split_ref : SecretRef → Option ℕ → Result SecretError (Bytes × Bytes)
split_ref s none = err no_scheme
split_ref s (some i) = do
  fail_if (not (valid_scheme_name (take i s))) bad_scheme
  fail_if (is_empty (drop (suc i) s)) (empty_payload (take i s))
  ok (take i s, drop (suc i) s)

-- `parseSecretRef`
unfoldable pub parse_secret_ref : SecretRef → Result SecretError (Bytes × Bytes)
parse_secret_ref ref = do
  fail_if (is_empty ref) empty_reference
  split_ref ref (index_byte b':' ref)

-- An opened file: its mode bits, and its contents unless a read fails.
pub record File : Type 0 where
  pub mode : ℕ
  pub contents : Option Bytes

-- What the process finds around it: `os.Open` with `Stat`, and `os.LookupEnv`.
pub record Host : Type 0 where
  pub open_file : Bytes → Option File
  pub lookup_env : Bytes → Option Bytes

-- The caller's `SecretResolver`; `none` is an error of it.
abbrev pub SecretResolver : Type 0
SecretResolver = SecretRef → Option Bytes

abbrev pub or_fail : {A : Type 0} → Option A → SecretError → Result SecretError A
or_fail none e = err e
or_fail (some a) e = ok a

-- `resolveFile`
unfoldable pub resolve_file : Host → Bytes → Result SecretError Bytes
resolve_file h path = do
  f ← or_fail (h.open_file path) (file_error path)
  fail_if (not (nat_beq (bit_and f.mode 0o077) 0)) (loose_permissions path f.mode)
  or_fail f.contents (file_error path)

-- `resolveEnv`
unfoldable pub resolve_env : Host → Bytes → Result SecretError Bytes
resolve_env h name = or_fail (h.lookup_env name) (env_not_set name)

-- `Resolve` for a scheme that is neither file: nor env:.
unfoldable pub resolve_external :
    Option SecretResolver → Bytes → SecretRef → Result SecretError Bytes
resolve_external none scheme ref = err (needs_resolver scheme)
resolve_external (some external) scheme ref = do
  value ← or_fail (external ref) (resolver_failed scheme)
  fail_if (is_empty value) (resolver_empty scheme)
  ok value

-- `secretResolver.Resolve`
unfoldable pub resolve_secret_ref :
    Host → Option SecretResolver → SecretRef → Result SecretError Bytes
resolve_secret_ref h external ref = do
  (scheme, payload) ← parse_secret_ref ref
  if bytes_beq scheme (codes "file")
      then resolve_file h payload
      else if bytes_beq scheme (codes "env")
      then resolve_env h payload
      else resolve_external external scheme ref
