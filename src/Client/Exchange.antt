-- ===== src/Client/Exchange.antt =====
-- client.go, `Dial` on a connection, `hello` and `finishHello`: the exchange under a budget that may end at any
-- moment, and then closes the connection from another goroutine.
pub mod HandedOver
use gocloak.Base.{
  ℕ, ◌+◌, ◌*◌, ◌^◌, Bool, true, false, not, ◌&&◌, ◌||◌, Bytes, Option, none, some, Result, ok, err,
  ◌>>=◌, ◌>>◌, fail_if, map_err, leb, ltb, if◌then◌else◌,
}
use gocloak.Client.{DialError, invalid_service_name, status_error}
use gocloak.Conn.{Conn}
use gocloak.Wire.{FrameError, valid_service_name, write_hello_request, read_hello_response}

-- The moments of `hello` behind the registration of the watchdog, which is the moment 0: the two calls that set
-- a deadline, the write, the read, and `stop`.
abbrev pub sets_write_deadline : ℕ
sets_write_deadline = 1

abbrev pub writes : ℕ
writes = 2

abbrev pub sets_read_deadline : ℕ
sets_read_deadline = 3

abbrev pub reads : ℕ
reads = 4

abbrev pub stops : ℕ
stops = 5

-- What may go wrong around an exchange: the moment at which the budget is over, if it is before the end, how
-- much later the watchdog's `Close` takes effect, and which calls that set a deadline fail on an open
-- connection.
pub record Surroundings : Type 0 where
  pub over_at : Option ℕ
  pub close_delay : ℕ
  pub write_deadline_fails : Bool
  pub read_deadline_fails : Bool
  pub clear_fails : Bool

pub data ExchangeError : Type 0 where
  budget_over : ExchangeError
  deadline_not_set : ExchangeError
  connection_closed : ExchangeError
  frame_failed : FrameError → ExchangeError
  refused : DialError → ExchangeError

-- `ctx.Err` is not nil at this moment.
abbrev pub is_over : Surroundings → ℕ → Bool
is_over s moment = elim s.over_at [ none ↦ false | some at ↦ leb at moment ]

-- The watchdog has closed the connection by this moment; it starts only if the budget is over before `stop`.
abbrev pub is_closed : Surroundings → ℕ → Bool
is_closed s moment = elim s.over_at [
  | none ↦ false
  | some at ↦ leb at stops && leb (at + s.close_delay) moment
]

-- `helloError`
abbrev pub hello_error : Surroundings → ℕ → ExchangeError → ExchangeError
hello_error s moment e = if is_over s moment then budget_over else e

-- A call on the connection that fails on a closed one.
abbrev pub on_open : {A : Type 0} → Surroundings → ℕ → Result FrameError A → Result ExchangeError A
on_open s moment r =
    if is_closed s moment
    then err (hello_error s moment connection_closed)
    else map_err (λ e. hello_error s moment (frame_failed e)) r

-- `finishHello`: `stop` reports false if the watchdog has started.
unfoldable pub finish_hello : Surroundings → Conn → Result ExchangeError Conn
finish_hello s conn = do
  fail_if (is_over s stops) budget_over
  fail_if s.clear_fails deadline_not_set
  ok conn

-- `hello`
unfoldable pub guarded_hello : Surroundings → Bytes → Conn → Result ExchangeError Conn
unfolding finish_hello
guarded_hello s service conn = do
  fail_if (is_closed s sets_write_deadline || s.write_deadline_fails) deadline_not_set
  conn1 ← on_open s writes (write_hello_request service conn)
  fail_if (is_closed s sets_read_deadline || s.read_deadline_fails) deadline_not_set
  (status, conn2) ← on_open s reads (read_hello_response conn1)
  map_err refused (status_error status)
  finish_hello s conn2

-- What `Dial` returns, and whether the connection is or will be closed by the client.
pub record Dialled : Type 0 where
  pub result : Result ExchangeError Conn
  pub closed : Bool

abbrev pub dialled : Surroundings → Result ExchangeError Conn → Dialled
dialled s (ok conn) = record { result = ok conn; closed = is_over s stops }
dialled s (err e) = record { result = err e; closed = true }

-- `Dial` behind `dialControl`, which gave the connection.
unfoldable pub dial_connected : Surroundings → Bytes → Conn → Dialled
unfolding guarded_hello
dial_connected s service conn = dialled s (guarded_hello s service conn)

-- `helloReadDeadline`, 5 seconds.
abbrev pub hello_read_deadline : ℕ
hello_read_deadline = 5 * 10 ^ 9

-- `helloDeadline`, from the time and the deadline of the context.
unfoldable pub hello_deadline : ℕ → Option ℕ → ℕ
hello_deadline now none = now + hello_read_deadline
hello_deadline now (some deadline) =
    if ltb deadline (now + hello_read_deadline) then deadline else now + hello_read_deadline
