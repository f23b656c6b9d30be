-- ===== src/Msg/Listener.antt =====
-- internal/msg/msg.go, `Serve`: the accept loop, and a goroutine for each connection.
pub mod Rounds
pub mod Returned
use gocloak.Base.{
  ℕ, zero, suc, Bool, true, false, ◌&&◌, Bytes, List, [], ◌∷◌, ◌++◌, ok, err, if◌then◌else◌,
}
use gocloak.Conn.{Conn, write}
use gocloak.Msg.{io, read_message, Served, ack_text}

-- How `Serve` ends, when `Accept` fails: with the error of the context, or with that of `Accept`.
pub data ServeEnd : Type 0 where
  cancelled accept_failed : ServeEnd

abbrev pub ending_of : Bool → ServeEnd
ending_of done = if done then cancelled else accept_failed

-- A goroutine that runs `ServeConn`: between two rounds of its loop, with the messages handled so far, or
-- behind it.
pub data Handler : Type 0 where
  running : Conn → List Bytes → Handler
  returned : Served → Handler

-- One round of the loop of `ServeConn`.
unfoldable pub serve_round : Handler → Handler
serve_round (returned s) = returned s
serve_round (running conn handled) = elim (read_message conn) [
  | err e ↦ returned (record { handled = handled; stopped = e; conn = conn })
  | ok (message, conn1) ↦ elim (write (ack_text message ++ (b'\n' ∷ [])) conn1) [
    | err e ↦
        returned (record { handled = handled ++ (message ∷ []); stopped = io e; conn = conn1 })
    | ok conn2 ↦ running conn2 (handled ++ (message ∷ []))
  ]
]

-- Where `Serve` stands: in `Accept`, in `wg.Wait`, or at its end.
pub data Loop : Type 0 where
  accepting waiting : Loop
  ended : ServeEnd → Loop

-- `Serve` and its goroutines, in the order in which they were started; `done` is that of the context.
pub record Serving : Type 0 where
  pub loop : Loop
  pub handlers : List Handler
  pub done : Bool

abbrev pub listening : Serving
listening = record { loop = accepting; handlers = []; done = false }

-- What may come next: `Accept` returns a connection or fails, the goroutine of a number does a round, the
-- context is done, or `wg.Wait` is tried.
pub data ServeEvent : Type 0 where
  accepts : Conn → ServeEvent
  accept_fails : ServeEvent
  takes_turn : ℕ → ServeEvent
  cancels : ServeEvent
  wakes : ServeEvent

unfoldable pub turn_of : ℕ → List Handler → List Handler
turn_of n [] = []
turn_of zero (h ∷ hs) = serve_round h ∷ hs
turn_of (suc n) (h ∷ hs) = h ∷ turn_of n hs

abbrev has_returned : Handler → Bool
has_returned (running _ _) = false
has_returned (returned _) = true

-- `wg` is at zero.
unfoldable pub all_returned : List Handler → Bool
all_returned [] = true
all_returned (h ∷ hs) = has_returned h && all_returned hs

abbrev after_accept : Conn → Loop → List Handler → List Handler
after_accept conn accepting hs = hs ++ (running conn [] ∷ [])
after_accept conn _ hs = hs

abbrev after_failure : Loop → Loop
after_failure accepting = waiting
after_failure l = l

abbrev woken : Bool → Bool → Loop → Loop
woken all done waiting = if all then ended (ending_of done) else waiting
woken all done l = l

-- `Serve`, from one happening to the next.
unfoldable pub happen : ServeEvent → Serving → Serving
unfolding all_returned
happen (accepts conn) s = record s { handlers = after_accept conn s.loop s.handlers }
happen accept_fails s = record s { loop = after_failure s.loop }
happen (takes_turn n) s = record s { handlers = turn_of n s.handlers }
happen cancels s = record s { done = true }
happen wakes s = record s { loop = woken (all_returned s.handlers) s.done s.loop }

unfoldable pub serve : List ServeEvent → Serving → Serving
serve [] s = s
serve (h ∷ hs) s = serve hs (happen h s)
