-- ===== src/Server/Pipe.antt =====
-- server.go, `pipeConns`: bytes are copied both ways until either way ends.
pub mod Flows
pub mod Faithful
use gocloak.Base.{
  ℕ, ◌+◌, Bool, true, false, ◌&&◌, ◌||◌, Bytes, List, [], ◌∷◌, ◌++◌, Option, none, some, length,
  take, drop, ltb, if◌then◌else◌,
}

-- Where one of the two goroutines is: in `io.Copy`, at the first of its two calls of `Close`, at the second,
-- or returned.
pub data Phase : Type 0 where
  copying ended half_closed returned : Phase

-- One way: the bytes that its source is still to send, what its destination got, the result of `io.Copy`,
-- and where the goroutine is.
pub record Flow : Type 0 where
  pub incoming : Bytes
  pub delivered : Bytes
  pub count : ℕ
  pub phase : Phase

-- `up` is from the peer to the backend.
pub record Pipe : Type 0 where
  pub up : Flow
  pub down : Flow
  pub peer_closed : Bool
  pub backend_closed : Bool

pub data Way : Type 0 where
  up_way down_way : Way

-- `copies w n m`: a round of `io.Copy` that reads up to `n` bytes, of which `m` at most are written.
-- `read_ends`: the source reports its end or an error. `closes`: the next `Close` of the goroutine.
-- `cancelled`: the context is done.
pub data PipeEvent : Type 0 where
  copies : Way → ℕ → ℕ → PipeEvent
  read_ends closes : Way → PipeEvent
  cancelled : PipeEvent

abbrev pub is_returned : Phase → Bool
is_returned returned = true
is_returned _ = false

abbrev pub after_round : Bytes → Bytes → Phase
after_round read written = if ltb (length written) (length read) then ended else copying

-- What is written of the bytes that are read. Bytes that cannot be written are lost with the connection.
abbrev pub pass_on : Bytes → Bytes → Flow → Flow
pass_on read written f = record {
  incoming = drop (length read) f.incoming;
  delivered = f.delivered ++ written;
  count = f.count + length written;
  phase = after_round read written;
}

abbrev pub written_of : Bool → ℕ → Bytes → Bytes
written_of destination_closed m read = if destination_closed then [] else take m read

-- A round of `io.Copy`, between connections that may be closed.
unfoldable pub copy_round : Bool → Bool → ℕ → ℕ → Flow → Flow
copy_round source_closed destination_closed n m f = elim f.phase [
  | copying ↦
      if source_closed
      then record f { phase = ended }
      else let read = take n f.incoming in pass_on read (written_of destination_closed m read) f
  | _ ↦ f
]

abbrev pub end_read : Flow → Flow
end_read f = elim f.phase [ copying ↦ record f { phase = ended } | _ ↦ f ]

abbrev pub next_close : Phase → Phase
next_close copying = copying
next_close ended = half_closed
next_close half_closed = returned
next_close returned = returned

-- Whether the next `Close` is the first, and whether it is the second.
abbrev pub at_first : Phase → Bool
at_first ended = true
at_first _ = false

abbrev pub at_second : Phase → Bool
at_second half_closed = true
at_second _ = false

abbrev pub closing : Flow → Flow
closing f = record f { phase = next_close f.phase }

abbrev pub is_done : Pipe → Bool
is_done p = is_returned p.up.phase && is_returned p.down.phase

unfoldable pub pipe_step : PipeEvent → Pipe → Pipe
pipe_step (copies up_way n m) p = record p {
  up = copy_round p.peer_closed p.backend_closed n m p.up;
}
pipe_step (copies down_way n m) p = record p {
  down = copy_round p.backend_closed p.peer_closed n m p.down;
}
pipe_step (read_ends up_way) p = record p { up = end_read p.up }
pipe_step (read_ends down_way) p = record p { down = end_read p.down }
pipe_step (closes up_way) p = record p {
  up = closing p.up;
  backend_closed = p.backend_closed || at_first p.up.phase;
  peer_closed = p.peer_closed || at_second p.up.phase;
}
pipe_step (closes down_way) p = record p {
  down = closing p.down;
  peer_closed = p.peer_closed || at_first p.down.phase;
  backend_closed = p.backend_closed || at_second p.down.phase;
}
pipe_step cancelled p =
    if is_done p then p else record p { peer_closed = true; backend_closed = true }

unfoldable pub run_pipe : List PipeEvent → Pipe → Pipe
run_pipe [] p = p
run_pipe (e ∷ es) p = run_pipe es (pipe_step e p)

abbrev pub new_flow : Bytes → Bytes → Flow
new_flow incoming sent = record {
  incoming = incoming;
  delivered = sent;
  count = 0;
  phase = copying;
}

-- The start: what each side is to send, and what was written to it before, which is the hello response.
abbrev pub new_pipe : Bytes → Bytes → Bytes → Bytes → Pipe
new_pipe from_peer sent_backend from_backend sent_peer = record {
  up = new_flow from_peer sent_backend;
  down = new_flow from_backend sent_peer;
  peer_closed = false;
  backend_closed = false;
}

-- What `pipeConns` returns, once both goroutines have: the bytes written to the peer and those to the
-- backend.
unfoldable pub pipe_result : Pipe → Option (ℕ × ℕ)
pipe_result p = if is_done p then some (p.down.count, p.up.count) else none
