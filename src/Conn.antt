-- ===== src/Conn.antt =====
-- A `net.Conn` as the program sees it: the bytes still to arrive and what a read reports after them,
-- the bytes written so far, and the error of a write, if the other side is gone. Deadlines are part
-- of `ending`: a peer that stays silent is a connection whose next read reports `timeout`.
pub mod Reads
use gocloak.Base.{
  ℕ, Bytes, Option, none, some, [], ◌∷◌, ◌++◌, Result, ok, err, length, take, drop, if◌then◌else◌,
  leb,
}

pub data IoError : Type 0 where
  eof unexpected_eof timeout reset : IoError

pub record Conn : Type 0 where
  pub incoming : Bytes
  pub ending : IoError
  pub sent : Bytes
  pub write_error : Option IoError

-- What `io.ReadFull` reports when the stream ends early: a partial read never reports plain EOF.
abbrev pub short_read : Bytes → IoError → IoError
short_read [] e = e
short_read (_ ∷ _) eof = unexpected_eof
short_read (_ ∷ _) e = e

-- `io.ReadFull(r, buf)` with a buffer of `n` bytes.
unfoldable pub read_full : ℕ → Conn → Result IoError (Bytes × Conn)
read_full n c =
    if leb n (length c.incoming)
    then ok (take n c.incoming, record c { incoming = drop n c.incoming })
    else err (short_read c.incoming c.ending)

-- `w.Write(p)`
unfoldable pub write : Bytes → Conn → Result IoError Conn
write p c = elim c.write_error [ none ↦ ok (record c { sent = c.sent ++ p }) | some e ↦ err e ]
