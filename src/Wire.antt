-- ===== src/Wire.antt =====
-- wire.go: the hello request and response frames.
pub mod Names
pub mod Requests
pub mod Responses
use gocloak.Base.{
  ℕ, suc, ◌+◌, ◌≤◌, ◌%◌, Bool, true, false, not, ◌&&◌, ◌||◌, Bytes, List, [], ◌∷◌, ◌++◌, Result, ok,
  err, ◌>>=◌, ◌>>◌, fail_if, map_err, length, all, if◌then◌else◌, leb, ltb, nat_beq,
}
use gocloak.Conn.{Conn, IoError, read_full, write}

-- `frameVersion`, `maxNameLen`
abbrev pub frame_version : ℕ
frame_version = 0x01

abbrev pub max_name_len : ℕ
max_name_len = 63

-- The two character classes of `nameRE`, ^[a-z0-9][a-z0-9-]{0,62}$.
abbrev pub is_alnum : ℕ → Bool
is_alnum c = (leb b'a' c && leb c b'z') || (leb b'0' c && leb c b'9')

abbrev pub is_name_byte : ℕ → Bool
is_name_byte c = is_alnum c || nat_beq c b'-'

-- `ValidServiceName`
unfoldable pub valid_service_name : Bytes → Bool
valid_service_name [] = false
valid_service_name (c ∷ cs) = is_alnum c && (leb (length cs) 62 && all is_name_byte cs)

-- The reasons that wrap `errMalformedFrame`.
pub data Malformation : Type 0 where
  unsupported_version : ℕ → Malformation
  invalid_name_length : ℕ → Malformation
  short_name : Malformation
  invalid_name : Malformation
  unknown_status : ℕ → Malformation

pub data FrameError : Type 0 where
  io : IoError → FrameError
  malformed : Malformation → FrameError
  refused_name : FrameError
  refused_status : ℕ → FrameError

-- A `status` is a byte.
abbrev pub Status : Type 0
Status = ℕ

abbrev pub status_ok : Status
status_ok = 0x00

abbrev pub status_denied : Status
status_denied = 0x01

abbrev pub status_backend_unavailable : Status
status_backend_unavailable = 0x02

abbrev pub status_rate_limited : Status
status_rate_limited = 0x03

abbrev pub status_malformed : Status
status_malformed = 0x04

-- `validStatus`
unfoldable pub valid_status : Status → Bool
valid_status s =
    nat_beq s status_ok
    || nat_beq s status_denied
    || nat_beq s status_backend_unavailable
    || nat_beq s status_rate_limited
    || nat_beq s status_malformed

-- `writeHelloRequest`
unfoldable pub write_hello_request : Bytes → Conn → Result FrameError Conn
write_hello_request name w = do
  fail_if (not (valid_service_name name)) refused_name
  map_err io (write (frame_version ∷ (length name % 256) ∷ name) w)

-- `readHelloRequest` behind its header, whose bytes are the version and the declared length.
unfoldable pub read_name : ℕ → ℕ → Conn → Result FrameError (Bytes × Conn)
read_name version n r = do
  fail_if (not (nat_beq version frame_version)) (malformed (unsupported_version version))
  fail_if (nat_beq n 0 || ltb max_name_len n) (malformed (invalid_name_length n))
  (name, r') ← map_err (λ _. malformed short_name) (read_full n r)
  fail_if (not (valid_service_name name)) (malformed invalid_name)
  ok (name, r')

-- The two bytes of a header.
abbrev pub with_header {ℓ} : {A : Type ℓ} → (ℕ → ℕ → A) → A → Bytes → A
with_header f none_read (a ∷ b ∷ _) = f a b
with_header f none_read _ = none_read

-- `readHelloRequest`
unfoldable pub read_hello_request : Conn → Result FrameError (Bytes × Conn)
read_hello_request r = do
  (head, r') ← map_err io (read_full 2 r)
  with_header (λ version n. read_name version n r') (err (io r.ending)) head

-- `writeHelloResponse`
unfoldable pub write_hello_response : Status → Conn → Result FrameError Conn
write_hello_response status w = do
  fail_if (not (valid_status status)) (refused_status status)
  map_err io (write (frame_version ∷ status ∷ []) w)

-- `readHelloResponse` behind its two bytes.
unfoldable pub check_response : ℕ → ℕ → Conn → Result FrameError (Status × Conn)
check_response version status r = do
  fail_if (not (nat_beq version frame_version)) (malformed (unsupported_version version))
  fail_if (not (valid_status status)) (malformed (unknown_status status))
  ok (status, r)

-- `readHelloResponse`
unfoldable pub read_hello_response : Conn → Result FrameError (Status × Conn)
read_hello_response r = do
  (frame, r') ← map_err io (read_full 2 r)
  with_header (λ version status. check_response version status r') (err (io r.ending)) frame
