-- ===== src/Config/Yaml.antt =====
-- config.go, `decodeStrict` and the redaction of yaml.v3's errors. The decoder itself is a parameter: what
-- its first two calls of `Decode` return.
pub mod Redacted
use gocloak.Base.{
  ℕ, ◌+◌, Bool, false, ◌&&◌, ◌||◌, Bytes, List, [], ◌∷◌, ◌++◌, map, none, some, Result, ok, err,
  codes, length, take, drop, leb, nat_beq, all, if◌then◌else◌, has_prefix, index, last_index, join,
}

-- `yaml.TypeError` with its messages, or a parser error.
pub data YamlError : Type 0 where
  type_error : List Bytes → YamlError
  other : Bytes → YamlError

-- What one `Decode` returns: a document, `io.EOF`, or an error.
pub data Decoded (A : Type 0) : Type 0 where
  document : A → Decoded A
  at_eof : Decoded A
  failed : YamlError → Decoded A

pub record Documents (A : Type 0) : Type 0 where
  pub first : Decoded A
  pub second : Decoded (Unit {0})

pub data DecodeError : Type 0 where
  empty_document : DecodeError
  more_than_one_document : DecodeError
  yaml : Bytes → DecodeError

abbrev pub dup_key_prefix : Bytes
dup_key_prefix = codes "mapping key "

abbrev pub dup_key_suffix : Bytes
dup_key_suffix = codes " already defined at line "

abbrev pub field_prefix : Bytes
field_prefix = codes "field "

abbrev pub unknown_field_marker : Bytes
unknown_field_marker = codes " not found in type "

abbrev pub field_set_marker : Bytes
field_set_marker = codes " already set in type "

abbrev pub redacted : Bytes
redacted = codes "(redacted)"

abbrev pub value_redacted : Bytes
value_redacted = codes "value is not valid for this field (value redacted)"

abbrev field_first : ℕ → Bool
field_first c = leb b'a' c && leb c b'z'

abbrev field_later : ℕ → Bool
field_later c = field_first c || (leb b'0' c && leb c b'9') || nat_beq c b'_'

-- `yamlFieldNameRE`, ^[a-z][a-z0-9_]{0,39}$
unfoldable pub is_field_name : Bytes → Bool
is_field_name [] = false
is_field_name (c ∷ cs) = field_first c && (leb (length cs) 39 && all field_later cs)

-- `yamlLinePrefix`
unfoldable pub line_prefix : Bytes → Bytes
line_prefix m =
    if has_prefix m (codes "line ")
    then elim (index m (codes ": ")) [ none ↦ [] | some i ↦ take (i + 2) m ]
    else []

-- The last two cases of `sanitizeYAMLMessage`.
unfoldable pub keep_or_redact : Bytes → Bytes → Bytes → Bytes
keep_or_redact m prefix rest = elim (index rest field_set_marker) [
  | some _ ↦ m
  | none ↦ prefix ++ value_redacted
]

-- The unknown-field case, and what follows it.
unfoldable pub unknown_field : Bytes → Bytes → Bytes → Bytes
unknown_field m prefix rest =
    if has_prefix rest field_prefix
    then elim (last_index rest unknown_field_marker) [
      | none ↦ keep_or_redact m prefix rest
      | some i ↦
          if is_field_name (drop (length field_prefix) (take i rest))
          then m
          else prefix ++ (field_prefix ++ (redacted ++ drop i rest))
    ]
    else keep_or_redact m prefix rest

-- `sanitizeYAMLMessage` behind the line prefix.
unfoldable pub sanitize_rest : Bytes → Bytes → Bytes → Bytes
sanitize_rest m prefix rest =
    if has_prefix rest dup_key_prefix
    then elim (last_index rest dup_key_suffix) [
      | none ↦ unknown_field m prefix rest
      | some i ↦ prefix ++ (dup_key_prefix ++ (redacted ++ drop i rest))
    ]
    else unknown_field m prefix rest

-- `sanitizeYAMLMessage`
unfoldable pub sanitize_yaml_message : Bytes → Bytes
sanitize_yaml_message m = sanitize_rest m (line_prefix m) (drop (length (line_prefix m)) m)

-- `sanitizeYAMLError`, as the text of the error.
unfoldable pub sanitize_yaml_error : YamlError → Bytes
sanitize_yaml_error (other text) = text
sanitize_yaml_error (type_error messages) =
    codes "yaml: " ++ join (codes "; ") (map sanitize_yaml_message messages)

abbrev one_document : {A : Type 0} → A → Decoded (Unit {0}) → Result DecodeError A
one_document v (document _) = err more_than_one_document
one_document v at_eof = ok v
one_document v (failed e) = err (yaml (sanitize_yaml_error e))

-- `decodeStrict`
unfoldable pub decode_strict : {A : Type 0} → Documents A → Result DecodeError A
decode_strict docs = elim docs.first [
  | at_eof ↦ err empty_document
  | failed e ↦ err (yaml (sanitize_yaml_error e))
  | document v ↦ one_document v docs.second
]
