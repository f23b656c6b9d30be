-- ===== src/Secret/Resolution.antt =====
-- secret.go, `Resolve`: where a resolved value may come from.
use Prim.Native.Nat.{bit_and}
use gocloak.Base.{
  ◌≡◌, ◌≢◌, ◌⊎◌, inl, inr, refl, true, false, Bytes, [], ◌∷◌, Option, none, some, ok, err, arith,
  All, codes, Result-cases, bytes_eq, ==_cases, if◌then◌else◌, index_byte-none, bytes_beq,
  Option-cases,
}
use gocloak.Secret.{
  SecretRef, SecretResolver, Host, File, parse_secret_ref, split_ref, resolve_file, resolve_env,
  resolve_external, resolve_secret_ref, no_scheme,
}

-- A file that only its owner can read holds the value.
abbrev pub FromFile : Host → Bytes → Bytes → Type 0
FromFile h path value =
    (f : File) × (h.open_file path ≡ some f)
    × (bit_and f.mode 0o077 ≡ 0)
    × (f.contents ≡ some value)

-- The caller's resolver returned the value for the whole reference.
abbrev pub FromResolver : Option SecretResolver → SecretRef → Bytes → Type 0
FromResolver external ref value =
    (r : SecretResolver) × (external ≡ some r) × (r ref ≡ some value) × (value ≢ [])

-- Where the value of a scheme and payload comes from.
abbrev pub Source : Host → Option SecretResolver → SecretRef → Bytes → Bytes → Bytes → Type 0
Source h external ref scheme payload value =
    ((scheme ≡ codes "file") × FromFile h payload value)
    ⊎ ((scheme ≡ codes "env") × (h.lookup_env payload ≡ some value))
    ⊎ ((scheme ≢ codes "file") × (scheme ≢ codes "env") × FromResolver external ref value)

resolve_file-FromFile :
    (h : Host) (path value : Bytes) → resolve_file h path ≡ ok value → FromFile h path value
unfolding resolve_file
resolve_file-FromFile h path value e = elim (Option-cases (h.open_file path)) [
  | inl p ↦ absurd (ground arith)
  | inr (f, p) ↦ (f, p, ground arith, ground arith)
]

resolve_external-FromResolver :
    (external : Option SecretResolver) (scheme ref value : Bytes)
    → resolve_external external scheme ref ≡ ok value
    → FromResolver external ref value
unfolding resolve_external
resolve_external-FromResolver none scheme ref value e = cc
resolve_external-FromResolver (some r) scheme ref value e =
    (r, refl, ground arith, λ q. ground arith)

scheme_cases :
    (scheme name : Bytes)
    → ((bytes_beq scheme name ≡ true) × (scheme ≡ name))
      ⊎ ((bytes_beq scheme name ≡ false) × (scheme ≢ name))
scheme_cases scheme name = ==_cases ⦃e = bytes_eq⦄ scheme name

module _ (h : Host) (external : Option SecretResolver) (ref value : Bytes) where
  source :
      (scheme payload : Bytes)
      → (if bytes_beq scheme (codes "file")
          then resolve_file h payload
          else if bytes_beq scheme (codes "env")
          then resolve_env h payload
          else resolve_external external scheme ref)
        ≡ ok value
      → Source h external ref scheme payload value
  unfolding resolve_env
  source scheme payload e = elim (scheme_cases scheme (codes "file")) [
    | inl (t, s) ↦ inl (s, resolve_file-FromFile h payload value (rw t at e))
    | inr (t, s) ↦ elim (scheme_cases scheme (codes "env")) [
      | inl (t', s') ↦ inr (inl (s', ground arith))
      | inr (t', s') ↦ inr (
          inr
            (s, s', resolve_external-FromResolver external scheme ref value (rw t' at (rw t at e))))
    ]
  ]

-- A value is resolved only for a well-formed reference, and only from the place that its scheme names: a
-- file that no group or other user may touch, the environment, or, for any other scheme, the
-- caller's resolver, whose value is not empty. For file: and
-- env: the resolver's value is never used.
pub resolve_secret_ref-Source :
    (h : Host) (external : Option SecretResolver) (ref : SecretRef) (value : Bytes)
    → resolve_secret_ref h external ref ≡ ok value
    → (scheme : Bytes) × (payload : Bytes) × (parse_secret_ref ref ≡ ok (scheme, payload))
      × Source h external ref scheme payload value
unfolding resolve_secret_ref resolve_env
resolve_secret_ref-Source h external ref value e = elim (Result-cases (parse_secret_ref ref)) [
  | inr (x, p) ↦ absurd (ground arith)
  | inl ((scheme, payload), p) ↦
      (scheme, payload, p, source h external ref value scheme payload (rw p at e))
]

-- A literal key pasted where a reference belongs, base64 or hex, has no colon: it is refused whatever
-- the host and the resolver hold, by an error that carries no part of it.
pub resolve_secret_ref_literal :
    (h : Host) (external : Option SecretResolver) (ref : SecretRef)
    → ref ≢ []
    → All (λ c. c ≢ b':') ref
    → resolve_secret_ref h external ref ≡ err no_scheme
unfolding resolve_secret_ref parse_secret_ref split_ref
resolve_secret_ref_literal h external [] f v = absurd (f refl)
resolve_secret_ref_literal h external (c ∷ cs) f v = rw (index_byte-none b':' (c ∷ cs) v)
