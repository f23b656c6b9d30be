-- ===== src/Tests/Msg.antt =====
-- internal/msg on a short message.
use gocloak.Base.{◌≡◌, ◌↔◌, List, false, refl, [], ◌∷◌, ◌++◌, some, ok, arith}
use gocloak.Conn.{Conn}
use gocloak.Msg.Acks.{frames, acks, sent_after, serve_conn-frames, send-serve_conn}
use gocloak.Msg.Listener.Returned.{AllServed, serve-returns}
use gocloak.Msg.Listener.{
  ServeEvent, accepts, accept_fails, takes_turn, wakes, waiting, ended, accept_failed, ending_of,
  listening, happen, serve,
}
use gocloak.Msg.Reads.{IsMessage}
use gocloak.Msg.{ack_text, send, serve_conn}
use gocloak.Tests.Data.{db, open_conn}

abbrev stream : Conn
stream = open_conn (db ++ (b'\n' ∷ []))

is_message : IsMessage db
is_message = (refl, omega arith)

framed : stream.incoming ≡ frames (db ∷ [])
unfolding frames
framed = refl

serve_conn-frames_example :
    serve_conn 4 stream ≡ some (sent_after stream (db ∷ []) ([] ++ acks (db ∷ [])))
unfolding frames
serve_conn-frames_example =
    serve_conn-frames (db ∷ []) 4 stream (is_message, tt) framed refl (omega arith)

abbrev answered : Conn
answered = open_conn (ack_text db ++ (b'\n' ∷ []))

send-serve_conn_example :
    (send db answered
      ≡ ok (ack_text db, record answered { incoming = []; sent = [] ++ frames (db ∷ []) }))
    × (serve_conn 4 stream ≡ some (sent_after stream (db ∷ []) ([] ++ acks (db ∷ []))))
send-serve_conn_example =
    send-serve_conn db answered stream [] 4 is_message refl refl framed refl (omega arith)

-- A connection with one message; then `Accept` fails, and the goroutine comes to its end.
abbrev served_once : List ServeEvent
served_once = accepts stream ∷ takes_turn 0 ∷ accept_fails ∷ takes_turn 0 ∷ []

waits : (serve served_once listening).loop ≡ waiting
unfolding serve happen
waits = refl

serve-returns_example :
    ((happen wakes (serve served_once listening)).loop ≡ ended accept_failed) ↔ (
      AllServed (stream ∷ []) (serve served_once listening).handlers
      × (accept_failed ≡ ending_of false))
serve-returns_example = serve-returns served_once accept_failed waits
