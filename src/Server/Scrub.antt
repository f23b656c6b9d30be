-- ===== src/Server/Scrub.antt =====
-- server.go, `scrubRef`: a secret reference is taken out of the text of an error.
pub mod Hidden
use gocloak.Base.{
  ℕ, zero, suc, ◌-◌, Bool, true, false, Bytes, [], ◌∷◌, ◌++◌, Option, none, some, codes, length,
  has_prefix, nat_beq, if◌then◌else◌, map,
}
use gocloak.Secret.{SecretRef, is_empty}

-- `redactedRefPlaceholder`
abbrev pub placeholder : Bytes
placeholder = codes "[REDACTED REF]"

-- `strings.ReplaceAll` for a text to replace that is not empty; the number counts the bytes of the last match
-- that are still to be passed over.
unfoldable pub replace_run : Bytes → Bytes → ℕ → Bytes → Bytes
replace_run old new n [] = []
replace_run old new (suc n) (c ∷ s) = replace_run old new n s
replace_run old new zero (c ∷ s) = elim (has_prefix (c ∷ s) old) [
  | true ↦ new ++ replace_run old new (length old - 1) s
  | false ↦ c ∷ replace_run old new 0 s
]

module _ (spread : Bytes → Bytes) where
  -- `strings.ReplaceAll` with the placeholder. `spread` is what it makes of a text when there is nothing to
  -- replace, a placeholder around every rune.
  unfoldable pub replace_all : Bytes → Bytes → Bytes
  replace_all s [] = spread s
  replace_all s (c ∷ old) = replace_run (c ∷ old) placeholder 0 s

  -- The loop of `scrubRef`: at each colon, as `strings.IndexByte` finds it, what is behind it is replaced.
  unfoldable pub scrub_suffixes : Bytes → Bytes → Bytes
  scrub_suffixes [] msg = msg
  scrub_suffixes (c ∷ rest) msg =
      if nat_beq c b':'
      then scrub_suffixes rest (if is_empty rest then msg else replace_all msg rest)
      else scrub_suffixes rest msg

  -- `scrubRef`, on the text of the error; `none` is nil.
  unfoldable pub scrub_ref : SecretRef → Option Bytes → Option Bytes
  scrub_ref ref none = none
  scrub_ref ref (some msg) = some (scrub_suffixes ref (replace_all msg ref))
