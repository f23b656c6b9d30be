-- ===== src/Conn/Reads.antt =====
-- `io.ReadFull`: it gives the next bytes and leaves the others, or it fails.
use gocloak.Base.{
  ℕ, ◌≤◌, ◌≡◌, ◌<◌, Bytes, ◌++◌, arith, ok, err, length, leb, length-append, length-take,
  take-append, drop-append, take-append-drop, true, false,
}
use gocloak.Conn.{Conn, short_read, read_full}

leb_of_le : (a b : ℕ) → a ≤ b → leb a b ≡ true
leb_of_le a b h = ground arith

leb_of_lt : (a b : ℕ) → b < a → leb a b ≡ false
leb_of_lt a b h = ground arith

pub read_full-append :
    (n : ℕ) (s : Conn) (bs rest : Bytes)
    → length bs ≡ n
    → read_full n (record s { incoming = bs ++ rest }) ≡ ok (bs, record s { incoming = rest })
unfolding read_full
read_full-append n s bs rest h = rw (
  leb_of_le n (length (bs ++ rest)) (omega (arith, length-append bs rest)),
  take-append n bs rest h,
  drop-append n bs rest h,
)

pub read_full_short :
    (n : ℕ) (s : Conn)
    → length s.incoming < n
    → read_full n s ≡ err (short_read s.incoming s.ending)
unfolding read_full
read_full_short n s h = rw (leb_of_lt n (length s.incoming) h)

-- What a full read says of the stream before and after it.
pub record Reads (n : ℕ) (s : Conn) (bs : Bytes) (s' : Conn) : Type 0 where
  pub splits : s.incoming ≡ bs ++ s'.incoming
  pub size : length bs ≡ n
  pub rest : s' ≡ record s { incoming = s'.incoming }

pub read_full-Reads :
    (n : ℕ) (s : Conn) (bs : Bytes) (s' : Conn) → read_full n s ≡ ok (bs, s') → Reads n s bs s'
unfolding read_full
read_full-Reads n s bs s' h = record {
  splits = ground (arith, take-append-drop n s.incoming);
  size = ground (arith, length-take n s.incoming);
  rest = ground arith;
}
