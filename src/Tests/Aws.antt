-- ===== src/Tests/Aws.antt =====
-- awssecrets/awssecrets.go on one reference.
use gocloak.Aws.Resolved.{Stored, resolve_aws_iff}
use gocloak.Aws.{Resolver, secret, resolve_aws}
use gocloak.Base.{◌≡◌, ◌≢◌, ◌↔◌, Bytes, [], ok, none, some, codes}

abbrev resolver : Resolver
resolver = record { sm = some (λ id. secret (some (codes "AAAA")) none); ssm = none }

resolve_aws_iff_example :
    (resolve_aws resolver (codes "aws:sm:gocloak/server/private") ≡ ok (codes "AAAA")) ↔ (
      (payload : Bytes) × (payload ≢ [])
      × Stored resolver (codes "aws:sm:gocloak/server/private") (codes "AAAA") payload)
resolve_aws_iff_example =
    resolve_aws_iff resolver (codes "aws:sm:gocloak/server/private") (codes "AAAA")
