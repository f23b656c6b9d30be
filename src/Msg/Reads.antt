-- ===== src/Msg/Reads.antt =====
-- internal/msg/msg.go, `readMessage`: exactly which streams yield a message.
use gocloak.Base.{
  ◌+◌, ◌≡◌, ◌≤◌, ◌↔◌, inl, inr, refl, Bool, true, not, Bytes, [], ◌∷◌, ◌++◌, append-nil,
  append_assoc, arith, all, length, length-append, ok, nat_beq, leb, Bool-cases,
}
use gocloak.Conn.{Conn, IoError}
use gocloak.Msg.{max_message_len, read_from, read_message}

abbrev pub no_newline : Bytes → Bool
no_newline = all (λ b. not (nat_beq b b'\n'))

-- A message: no newline in it, and at most `MaxMessageLen` bytes.
abbrev pub IsMessage : Bytes → Type 0
IsMessage m = (no_newline m ≡ true) × (length m ≤ max_message_len)

pub read_from-whole :
    (ending : IoError) (buf t rest : Bytes)
    → no_newline t ≡ true
    → length buf + length t ≤ max_message_len
    → read_from ending buf (t ++ (b'\n' ∷ rest)) ≡ ok (buf ++ t, rest)
unfolding read_from
read_from-whole ending buf [] rest clean short = ground (arith, append-nil buf)
read_from-whole ending buf (b ∷ t) rest clean short = ground (
  arith,
  read_from-whole ending (buf ++ (b ∷ [])) t rest,
  length-append buf (b ∷ []),
  append_assoc buf (b ∷ []) t,
)

read_from-ok :
    (ending : IoError) (buf s m rest : Bytes)
    → length buf ≤ max_message_len
    → read_from ending buf s ≡ ok (m, rest)
    → (t : Bytes) × (m ≡ buf ++ t)
      × (s ≡ t ++ (b'\n' ∷ rest))
      × (no_newline t ≡ true)
      × (length m ≤ max_message_len)
unfolding read_from
read_from-ok ending buf [] m rest short h = absurd (ground arith)
read_from-ok ending buf (b ∷ s) m rest short h = elim (Bool-cases (nat_beq b b'\n')) [
  | inl last ↦ ([], ground (arith, append-nil buf), ground arith, ground arith, ground arith)
  | inr inner ↦ elim (Bool-cases (leb max_message_len (length buf))) [
    | inl full ↦ absurd (ground arith)
    | inr fits ↦
        let (t, at, split, clean, bound) =
          read_from-ok ending (buf ++ (b ∷ [])) s m rest
            (ground (arith, length-append buf (b ∷ []))) (ground arith) in
        (b ∷ t, ground (arith, append_assoc buf (b ∷ []) t), ground arith, ground arith, bound)
  ]
]

read_from-eq_ok :
    (c : Conn) (m rest : Bytes)
    → read_message c ≡ ok (m, record c { incoming = rest })
    → read_from c.ending [] c.incoming ≡ ok (m, rest)
unfolding read_message
read_from-eq_ok c m rest h = ground arith

-- `readMessage` gives a message and leaves a rest to read exactly if the stream is the message, a newline
-- and the rest, where the message holds no newline and is not longer than `MaxMessageLen`.
pub read_message_iff :
    (c : Conn) (m rest : Bytes)
    → (read_message c ≡ ok (m, record c { incoming = rest }))
      ↔ (IsMessage m × (c.incoming ≡ m ++ (b'\n' ∷ rest)))
unfolding read_message
read_message_iff c m rest = (
  λ h.
      let (t, at, split, clean, bound) =
        read_from-ok c.ending [] c.incoming m rest (omega arith) (read_from-eq_ok c m rest h) in
      ((ground arith, bound), ground arith),
  λ ((clean, bound), split).
      let whole = read_from-whole c.ending [] m rest clean (omega (arith, bound)) in
      rw split (rw whole refl),
)
