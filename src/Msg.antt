-- ===== src/Msg.antt =====
-- internal/msg/msg.go: newline-delimited messages and their acknowledgements.
pub mod Reads
pub mod Acks
pub mod Listener
use gocloak.Base.{
  ℕ, zero, suc, ◌+◌, ◌*◌, ◌/◌, ◌%◌, Bool, true, false, Bytes, List, [], ◌∷◌, ◌++◌, Option, none,
  some, Result, ok, err, ◌>>=◌, ◌>>◌, fail_if, map_err, codes, length, nat_beq, leb, ltb,
  if◌then◌else◌,
}
use gocloak.Conn.{IoError, eof, Conn, write}

abbrev pub max_message_len : ℕ
max_message_len = 64 * 1024

-- `ErrMessageTooLarge`, `errIncompleteMessage`, and a read or write error as it is.
pub data MsgError : Type 0 where
  message_too_large : MsgError
  incomplete_message : MsgError
  io : IoError → MsgError

-- The result of a `ReadByte` that fails with `e` behind the bytes of `buf`.
abbrev pub cut_short : Bytes → IoError → MsgError
cut_short [] e = io e
cut_short (_ ∷ _) e = incomplete_message

-- The loop of `readMessage`: the message and what is left to read. `ending` is the error behind the last
-- byte of the stream.
unfoldable pub read_from : IoError → Bytes → Bytes → Result MsgError (Bytes × Bytes)
read_from ending buf [] = err (cut_short buf ending)
read_from ending buf (b ∷ bs) =
    if nat_beq b b'\n'
    then ok (buf, bs)
    else if leb max_message_len (length buf)
    then err message_too_large
    else read_from ending (buf ++ (b ∷ [])) bs

-- `readMessage`
unfoldable pub read_message : Conn → Result MsgError (Bytes × Conn)
read_message conn = do
  (message, rest) ← read_from conn.ending [] conn.incoming
  ok (message, record conn { incoming = rest })

-- `%d` of an `int` that is not negative: it has at most 19 digits.
unfoldable pub digits : ℕ → ℕ → Bytes
digits zero n = []
digits (suc fuel) n =
    let later = digits fuel (n / 10) in
    if ltb n 10 then (b'0' + n) ∷ [] else later ++ ((b'0' + n % 10) ∷ [])

abbrev pub ack_text : Bytes → Bytes
ack_text message = codes "ACK " ++ digits 20 (length message)

-- The loop of `ServeConn`: the messages that the handler gets, in order, the error that ends it, and the
-- connection then.
pub record Served : Type 0 where
  pub handled : List Bytes
  pub stopped : MsgError
  pub conn : Conn

abbrev pub after_message : Bytes → Served → Served
after_message message s = record s { handled = message ∷ s.handled }

abbrev pub stop : Conn → MsgError → Served
stop conn e = record { handled = []; stopped = e; conn = conn }

-- A round reads at least one byte, so that the number of bytes to read, and one, is fuel enough; `none`
-- is out of fuel.
unfoldable pub serve_conn : ℕ → Conn → Option Served
serve_conn zero conn = none
serve_conn (suc fuel) conn = elim (read_message conn) [
  | err e ↦ some (stop conn e)
  | ok (message, conn1) ↦ elim (write (ack_text message ++ (b'\n' ∷ [])) conn1) [
    | err e ↦ some (after_message message (stop conn1 (io e)))
    | ok conn2 ↦ elim (serve_conn fuel conn2) [
      | none ↦ none
      | some s ↦ some (after_message message s)
    ]
  ]
]

-- `Send`: the acknowledgement without its newline, and the connection then.
unfoldable pub send : Bytes → Conn → Result MsgError (Bytes × Conn)
send message conn = do
  fail_if (ltb max_message_len (length message)) message_too_large
  conn1 ← map_err io (write (message ++ (b'\n' ∷ [])) conn)
  read_message conn1
