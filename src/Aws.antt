-- ===== src/Aws.antt =====
-- awssecrets/awssecrets.go: a resolver of references to AWS Secrets Manager and SSM Parameter Store.
pub mod Resolved
use gocloak.Base.{
  suc, Bool, true, false, not, ◌||◌, Bytes, bytes_eq, [], ◌∷◌, ◌++◌, Option, none, some, Result, ok,
  err, ◌>>=◌, ◌>>◌, fail_if, codes, take, drop, index_byte, bytes_beq, if◌then◌else◌,
}
use gocloak.Secret.{SecretRef, is_empty}

-- What `GetSecretValue` answers: an error, no output, or the two fields that may hold the value.
pub data SecretAnswer : Type 0 where
  secret_failed : SecretAnswer
  no_secret : SecretAnswer
  secret : Option Bytes → Option Bytes → SecretAnswer

-- What `GetParameter` answers: an error, or an output, which may have no parameter, and this no value.
pub data ParameterAnswer : Type 0 where
  parameter_failed : ParameterAnswer
  no_output : ParameterAnswer
  no_parameter : ParameterAnswer
  parameter : Option Bytes → ParameterAnswer

-- `Resolver`: its two clients, by what they answer for an id or, with decryption, for a name; `none` is nil.
pub record Resolver : Type 0 where
  pub sm : Option (Bytes → SecretAnswer)
  pub ssm : Option (Bytes → ParameterAnswer)

pub data AwsError : Type 0 where
  empty_reference : AwsError
  not_aws : AwsError
  no_sub_scheme : AwsError
  empty_payload : AwsError
  unknown_scheme : Bytes → AwsError
  no_client : AwsError
  lookup_failed : AwsError
  no_value : AwsError

-- `strings.Cut(s, ":")`; `none` if there is no colon.
unfoldable pub cut : Bytes → Option (Bytes × Bytes)
cut s = elim (index_byte b':' s) [ none ↦ none | some i ↦ some (take i s, drop (suc i) s) ]

abbrev pub or_refuse : {A : Type 0} → AwsError → Option A → Result AwsError A
or_refuse e none = err e
or_refuse e (some a) = ok a

-- `parseRef`
unfoldable pub parse_ref : SecretRef → Result AwsError (Bytes × Bytes)
parse_ref s = do
  fail_if (is_empty s) empty_reference
  (head, rest) ← or_refuse not_aws (cut s)
  fail_if (not (bytes_beq head (codes "aws"))) not_aws
  (sub, payload) ← or_refuse no_sub_scheme (cut rest)
  fail_if (is_empty sub) no_sub_scheme
  fail_if (is_empty payload) empty_payload
  ok (codes "aws:" ++ sub, payload)

abbrev pub value_of : SecretAnswer → Result AwsError Bytes
value_of secret_failed = err lookup_failed
value_of no_secret = err no_value
value_of (secret (some text) binary) = ok text
value_of (secret none (some bytes)) = ok bytes
value_of (secret none none) = err no_value

-- `secretsManager`
unfoldable pub secrets_manager : Resolver → Bytes → Result AwsError Bytes
secrets_manager r id = do get ← or_refuse no_client r.sm; value_of (get id)

abbrev pub text_of : ParameterAnswer → Result AwsError Bytes
text_of parameter_failed = err lookup_failed
text_of no_output = err no_value
text_of no_parameter = err no_value
text_of (parameter none) = err no_value
text_of (parameter (some text)) = ok text

-- `ssmParameter`
unfoldable pub ssm_parameter : Resolver → Bytes → Result AwsError Bytes
ssm_parameter r name = do get ← or_refuse no_client r.ssm; text_of (get name)

-- `ResolveSecret`
unfoldable pub resolve_aws : Resolver → SecretRef → Result AwsError Bytes
resolve_aws r ref = do
  (scheme, payload) ← parse_ref ref
  if bytes_beq scheme (codes "aws:sm")
      then secrets_manager r payload
      else if bytes_beq scheme (codes "aws:ssm")
      then ssm_parameter r payload
      else err (unknown_scheme scheme)
