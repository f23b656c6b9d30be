-- ===== src/Msg/Listener/Rounds.antt =====
-- internal/msg/msg.go: the rounds of a goroutine of `Serve` are those of `ServeConn`.
use gocloak.Base.{
  sym, subst, err, ℕ, suc, ◌<◌, ◌≤◌, ◌≡◌, refl, Bytes, List, [], ◌∷◌, ◌++◌, append-nil,
  append_assoc, some, ok, arith, length, nat_beq, leb, Bool-cases, Option-cases, Result-cases, inl,
  inr,
}
use gocloak.Conn.{IoError, Conn, write}
use gocloak.Msg.Acks.{serve_conn-step}
use gocloak.Msg.Listener.{Handler, running, returned, serve_round}
use gocloak.Msg.{
  MsgError, io, stop, max_message_len, read_from, read_message, Served, after_message, ack_text,
  serve_conn,
}

read_from-shrinks :
    (ending : IoError) (buf bs m rest : Bytes)
    → read_from ending buf bs ≡ ok (m, rest)
    → length rest < length bs
unfolding read_from
read_from-shrinks ending buf [] m rest h = absurd (ground arith)
read_from-shrinks ending buf (b ∷ bs) m rest h = elim (Bool-cases (nat_beq b b'\n')) [
  | inl newline ↦ let same : bs ≡ rest = ground arith in ground (arith, same)
  | inr other ↦ elim (Bool-cases (leb max_message_len (length buf))) [
    | inl long ↦ absurd (ground arith)
    | inr short ↦
        let later = read_from-shrinks ending (buf ++ (b ∷ [])) bs m rest (ground arith) in
        omega (arith, later)
  ]
]

read_message-shrinks :
    (c c1 : Conn) (m : Bytes) → read_message c ≡ ok (m, c1) → length c1.incoming < length c.incoming
unfolding read_message
read_message-shrinks c c1 m h = elim (Result-cases (read_from c.ending [] c.incoming)) [
  | inr (x, e) ↦ absurd (ground arith)
  | inl ((m', rest), e) ↦
      let same : c1.incoming ≡ rest = ground arith in
      rw same (read_from-shrinks c.ending [] c.incoming m' rest e)
]

write-incoming : (p : Bytes) (c c1 : Conn) → write p c ≡ ok c1 → c1.incoming ≡ c.incoming
unfolding write
write-incoming p c c1 h = elim (Option-cases c.write_error) [
  | inl e ↦ ground arith
  | inr (x, e) ↦ absurd (ground arith)
]

-- More fuel changes nothing.
serve_conn-more :
    (n m : ℕ) (c : Conn) {s : Served} → serve_conn n c ≡ some s → n ≤ m → serve_conn m c ≡ some s
unfolding serve_conn
serve_conn-more Prim.Native.Nat.zero m c h le = absurd (ground arith)
serve_conn-more (suc n) Prim.Native.Nat.zero c h le = absurd (omega (arith, le))
serve_conn-more (suc n) (suc m) c {s} h le = elim (Result-cases (read_message c)) [
  | inr (x, e) ↦ ground (arith, e)
  | inl ((message, c1), e) ↦ elim (Result-cases (write (ack_text message ++ (b'\n' ∷ [])) c1)) [
    | inr (x, f) ↦ ground (arith, e, f)
    | inl (c2, f) ↦ elim (Option-cases (serve_conn n c2)) [
      | inl out ↦ absurd (ground (arith, e, f, out))
      | inr (t, later) ↦
          let more = serve_conn-more n m c2 later (omega arith) in ground (arith, e, f, later, more)
    ]
  ]
]

-- `ServeConn` on a connection, with fuel that is enough.
abbrev pub Serves : Conn → Served → Type 0
Serves c s = serve_conn (suc (length c.incoming)) c ≡ some s

abbrev prefixed : List Bytes → Served → Served
prefixed handled s = record s { handled = handled ++ s.handled }

-- The goroutine is on its way through `ServeConn` on the connection `c`, or has come to its end.
abbrev pub Follows : Conn → Handler → Type 0
Follows c (running conn handled) = (s : Served) → Serves conn s → Serves c (prefixed handled s)
Follows c (returned s) = Serves c s

same_handled :
    (c : Conn) (s : Served) (handled handled' : List Bytes)
    → handled ≡ handled'
    → Serves c (record s { handled = handled })
    → Serves c (record s { handled = handled' })
same_handled c s handled handled' e =
    subst (λ (l : List Bytes). Serves c (record s { handled = l })) e

module _ (c conn : Conn) (handled : List Bytes) (f : Follows c (running conn handled)) where
  unread-Follows :
      (x : MsgError) → read_message conn ≡ err x → Follows c (serve_round (running conn handled))
  unfolding serve_round
  unread-Follows x e =
      let is : serve_round (running conn handled)
          ≡ returned (record { handled = handled; stopped = x; conn = conn }) =
        ground (arith, e) in
      subst (Follows c) (sym is) (
        same_handled c (stop conn x) (handled ++ []) handled (append-nil handled)
          (f (stop conn x) (unfold serve_conn in ground (arith, e))))

  unwritten-Follows :
      (m : Bytes) (c1 : Conn) (x : IoError)
      → read_message conn ≡ ok (m, c1)
      → write (ack_text m ++ (b'\n' ∷ [])) c1 ≡ err x
      → Follows c (serve_round (running conn handled))
  unfolding serve_round
  unwritten-Follows m c1 x e w =
      let ends : Serves conn (after_message m (stop c1 (io x))) =
        unfold serve_conn in ground (arith, e, w) in
      let is : serve_round (running conn handled)
          ≡ returned (record { handled = handled ++ (m ∷ []); stopped = io x; conn = c1 }) =
        ground (arith, e, w) in
      subst (Follows c) (sym is) (f (after_message m (stop c1 (io x))) ends)

  written-Follows :
      (m : Bytes) (c1 c2 : Conn)
      → read_message conn ≡ ok (m, c1)
      → write (ack_text m ++ (b'\n' ∷ [])) c1 ≡ ok c2
      → Follows c (serve_round (running conn handled))
  unfolding serve_round
  written-Follows m c1 c2 e w =
      let less = read_message-shrinks conn c1 m e in
      let kept = write-incoming (ack_text m ++ (b'\n' ∷ [])) c1 c2 w in
      let next : Follows c (running c2 (handled ++ (m ∷ []))) = λ s later.
        let enough : suc (length c2.incoming) ≤ length conn.incoming = rw kept less in
        let rest =
          serve_conn-more (suc (length c2.incoming)) (length conn.incoming) c2 later enough in
        same_handled c s (handled ++ (m ∷ s.handled)) ((handled ++ (m ∷ [])) ++ s.handled)
          (sym (append_assoc handled (m ∷ []) s.handled))
          (f (after_message m s)
            (serve_conn-step (length conn.incoming) conn c1 c2 m s e w rest)) in
      let is : serve_round (running conn handled) ≡ running c2 (handled ++ (m ∷ [])) =
        ground (arith, e, w) in
      subst (Follows c) (sym is) next

pub serve_round-Follows : (c : Conn) (h : Handler) → Follows c h → Follows c (serve_round h)
serve_round-Follows c (returned s) f = unfold serve_round in f
serve_round-Follows c (running conn handled) f = elim (Result-cases (read_message conn)) [
  | inr (x, e) ↦ unread-Follows c conn handled f x e
  | inl ((m, c1), e) ↦ elim (Result-cases (write (ack_text m ++ (b'\n' ∷ [])) c1)) [
    | inr (x, w) ↦ unwritten-Follows c conn handled f m c1 x e w
    | inl (c2, w) ↦ written-Follows c conn handled f m c1 c2 e w
  ]
]

pub started-Follows : (c : Conn) → Follows c (running c [])
started-Follows c s h = h

abbrev rounds : ℕ → Handler → Handler
rounds Prim.Native.Nat.zero h = h
rounds (suc n) h = rounds n (serve_round h)

rounds-returned : (n : ℕ) (s : Served) → rounds n (returned s) ≡ returned s
unfolding serve_round
rounds-returned Prim.Native.Nat.zero s = refl
rounds-returned (suc n) s = rounds-returned n s

-- A goroutine that keeps getting its turn comes to its end, after one more round than there are bytes to
-- read at most.
rounds-ends :
    (n : ℕ) (conn : Conn) (handled : List Bytes)
    → length conn.incoming < n
    → (s : Served) × (rounds n (running conn handled) ≡ returned s)
unfolding serve_round
rounds-ends Prim.Native.Nat.zero conn handled h = absurd (omega (arith, h))
rounds-ends (suc n) conn handled h = elim (Result-cases (read_message conn)) [
  | inr (x, e) ↦
      let s : Served = record { handled = handled; stopped = x; conn = conn } in
      (s, ground (arith, e, rounds-returned n s))
  | inl ((m, c1), e) ↦ elim (Result-cases (write (ack_text m ++ (b'\n' ∷ [])) c1)) [
    | inr (x, f) ↦
        let s : Served = record { handled = handled ++ (m ∷ []); stopped = io x; conn = c1 } in
        (s, ground (arith, e, f, rounds-returned n s))
    | inl (c2, f) ↦
        let less = read_message-shrinks conn c1 m e in
        let kept = write-incoming (ack_text m ++ (b'\n' ∷ [])) c1 c2 f in
        let next = rounds-ends n c2 (handled ++ (m ∷ [])) (ground (arith, less)) in
        (next.0, ground (arith, e, f, next.1))
  ]
]
