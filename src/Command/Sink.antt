-- ===== src/Command/Sink.antt =====
-- cmd/gocloak-sink/main.go: a plain TCP service that prints what it receives.
use gocloak.Base.{ℕ, Bool, not, ◌&&◌, if◌then◌else◌, Bytes}
use gocloak.Command.{Parsed, help, bad_flags, parsed}

-- How the run goes: whether `net.Listen` fails for an address, whether `msg.Serve` returns an error, and
-- whether a signal has ended the context by then.
pub record SinkRun : Type 0 where
  pub listen_fails : Bytes → Bool
  pub serve_fails : Bool
  pub signalled : Bool

-- `run`, on the value of `--listen`.
unfoldable pub run_sink : SinkRun → Parsed Bytes → ℕ
run_sink r help = 0
run_sink r bad_flags = 2
run_sink r (parsed address) =
    if r.listen_fails address then 1 else if r.serve_fails && not r.signalled then 1 else 0
