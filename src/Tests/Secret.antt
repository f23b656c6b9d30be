-- ===== src/Tests/Secret.antt =====
-- secret.go on concrete references.
use gocloak.Base.{◌≡◌, refl, Bytes, none, some, ok, codes, index_byte, bytes_beq}
use gocloak.Secret.Resolution.{Source, resolve_secret_ref-Source}
use gocloak.Secret.{
  Host, valid_scheme_bytes, valid_scheme_name, split_ref, parse_secret_ref, resolve_env,
  resolve_secret_ref,
}

abbrev pub host : Host
host = record { open_file = λ path. none; lookup_env = λ name. some (codes "value") }

abbrev psk : Bytes
psk = codes "env:PSK"

resolved : resolve_secret_ref host none psk ≡ ok (codes "value")
unfolding resolve_secret_ref parse_secret_ref split_ref index_byte valid_scheme_name
    valid_scheme_bytes resolve_env bytes_beq
resolved = refl

resolve_secret_ref-Source_example :
    (scheme : Bytes) × (payload : Bytes) × (parse_secret_ref psk ≡ ok (scheme, payload))
    × Source host none psk scheme payload (codes "value")
resolve_secret_ref-Source_example = resolve_secret_ref-Source host none psk (codes "value") resolved
