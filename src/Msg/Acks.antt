-- ===== src/Msg/Acks.antt =====
-- internal/msg/msg.go, `ServeConn` and `Send`: every message is handled once, and acknowledged.
use gocloak.Base.{
  ℕ, zero, suc, ◌+◌, ◌%◌, ◌/◌, ◌≡◌, ◌≤◌, ◌<◌, refl, ap, ◌∙◌, true, not, Bytes, List, [], ◌∷◌, ◌++◌,
  append-nil, append_assoc, arith, All, all-append, length, length-append, none, some, ok, nat_beq,
}
use gocloak.Conn.{Conn, write}
use gocloak.Msg.Reads.{IsMessage, no_newline, read_message_iff}
use gocloak.Msg.{
  io, max_message_len, read_from, read_message, Served, after_message, ack_text, digits, serve_conn,
  send,
}

-- The messages on the wire.
unfoldable pub frames : List Bytes → Bytes
frames [] = []
frames (m ∷ ms) = m ++ (b'\n' ∷ frames ms)

-- Their acknowledgements.
abbrev pub acks : List Bytes → Bytes
acks [] = []
acks (m ∷ ms) = (ack_text m ++ (b'\n' ∷ [])) ++ acks ms

write-open :
    (p : Bytes) (c : Conn) → c.write_error ≡ none → write p c ≡ ok (record c { sent = c.sent ++ p })
unfolding write
write-open p c writes = rw writes refl

pub serve_conn-step :
    (fuel : ℕ) (c c1 c2 : Conn) (m : Bytes) (s : Served)
    → read_message c ≡ ok (m, c1)
    → write (ack_text m ++ (b'\n' ∷ [])) c1 ≡ ok c2
    → serve_conn fuel c2 ≡ some s
    → serve_conn (suc fuel) c ≡ some (after_message m s)
unfolding serve_conn
serve_conn-step fuel c c1 c2 m s read written later = ground arith

abbrev pub sent_after : Conn → List Bytes → Bytes → Served
sent_after c ms s = record {
  handled = ms;
  stopped = io c.ending;
  conn = record c { incoming = []; sent = s };
}

-- On a connection that carries whole messages and then ends, with a fuel above the number of bytes,
-- `ServeConn` hands each message to the handler, in order, stops at the error of the end, and has
-- written the acknowledgement of each.
pub serve_conn-frames :
    (ms : List Bytes) (fuel : ℕ) (c : Conn)
    → All IsMessage ms
    → c.incoming ≡ frames ms
    → c.write_error ≡ none
    → length (frames ms) < fuel
    → serve_conn fuel c
      ≡ some (record {
        handled = ms;
        stopped = io c.ending;
        conn = record c { incoming = []; sent = c.sent ++ acks ms };
      })
unfolding serve_conn frames
serve_conn-frames ms zero c h at writes fuel = absurd (omega (arith, fuel))
serve_conn-frames [] (suc fuel) c h at writes enough =
    unfold read_message read_from in ground (arith, append-nil c.sent)
serve_conn-frames (m ∷ ms) (suc fuel) c (h, hs) at writes enough =
    let read = (read_message_iff c m (frames ms)).1 (h, at) in
    let next : Conn = record c {
      incoming = frames ms;
      sent = c.sent ++ (ack_text m ++ (b'\n' ∷ []));
    } in
    let rest =
      serve_conn-frames ms fuel next hs refl writes
        (omega (arith, enough, length-append m (b'\n' ∷ frames ms))) in
    serve_conn-step fuel c (record c { incoming = frames ms }) next m _ read
      (write-open (ack_text m ++ (b'\n' ∷ [])) (record c { incoming = frames ms }) writes) rest
    ∙ ap (λ (s : Bytes). some (sent_after c (m ∷ ms) s))
        (append_assoc c.sent (ack_text m ++ (b'\n' ∷ [])) (acks ms))

digits-no_newline : (fuel n : ℕ) → no_newline (digits fuel n) ≡ true
unfolding digits
digits-no_newline zero n = refl
digits-no_newline (suc fuel) n = ground (
  arith,
  digits-no_newline fuel (n / 10),
  all-append (λ b. not (nat_beq b b'\n')) (digits fuel (n / 10)) ((b'0' + n % 10) ∷ []),
)

length-digits : (fuel n : ℕ) → length (digits fuel n) ≤ fuel
unfolding digits
length-digits zero n = omega arith
length-digits (suc fuel) n = ground (
  arith,
  length-digits fuel (n / 10),
  length-append (digits fuel (n / 10)) ((b'0' + n % 10) ∷ []),
)

ack_text-IsMessage : (m : Bytes) → IsMessage (ack_text m)
ack_text-IsMessage m =
    (digits-no_newline 20 (length m), ground (arith, length-digits 20 (length m)))

send-answered :
    (m : Bytes) (c c1 : Conn) (r : Bytes × Conn)
    → length m ≤ max_message_len
    → write (m ++ (b'\n' ∷ [])) c ≡ ok c1
    → read_message c1 ≡ ok r
    → send m c ≡ ok r
unfolding send
send-answered m c c1 r short written read = ground arith

-- A message through both ends, over connections that stay writable: `ServeConn` on what `Send` writes
-- hands exactly this message to the handler and writes its acknowledgement, and `Send` on a stream that
-- begins with this acknowledgement's line returns it, and leaves the rest of the stream.
pub send-serve_conn :
    (m : Bytes) (client server : Conn) (rest : Bytes) (fuel : ℕ)
    → IsMessage m
    → client.write_error ≡ none
    → server.write_error ≡ none
    → server.incoming ≡ frames (m ∷ [])
    → client.incoming ≡ ack_text m ++ (b'\n' ∷ rest)
    → length m + 1 < fuel
    → (send m client
        ≡ ok (ack_text m, record client { incoming = rest; sent = client.sent ++ frames (m ∷ []) }))
      × (serve_conn fuel server ≡ some (sent_after server (m ∷ []) (server.sent ++ acks (m ∷ []))))
unfolding frames
send-serve_conn m client server rest fuel h cw sw at back enough =
    let wrote = write-open (m ++ (b'\n' ∷ [])) client cw in
    (
      send-answered m client (record client { sent = client.sent ++ (m ++ (b'\n' ∷ [])) }) _ h.1
          wrote
          ((read_message_iff (record client { sent = client.sent ++ (m ++ (b'\n' ∷ [])) })
              (ack_text m) rest).1
            (ack_text-IsMessage m, back)),
      serve_conn-frames (m ∷ []) fuel server (h, tt) at sw
          (omega (arith, enough, length-append m (b'\n' ∷ []))),
    )
