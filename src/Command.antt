-- ===== src/Command.antt =====
-- The commands: cmd/gocloak, cmd/gocloak-send and cmd/gocloak-sink.
pub mod Keygen
pub mod Send
pub mod Serve
pub mod Sink
use gocloak.Base.{ℕ, Bytes, List, Option, none, some, Result, ok, err}

-- What `flag.FlagSet.Parse` makes of the arguments: `flag.ErrHelp`, another error, or the values.
pub data Parsed (A : Type 0) : Type 0 where
  help : Parsed A
  bad_flags : Parsed A
  parsed : A → Parsed A

-- What a command leaves: its exit code, and the lines on its standard output.
pub record Outcome : Type 0 where
  pub exit : ℕ
  pub stdout : List Bytes

-- A step that ends the command with this exit code if it fails.
abbrev pub or_exit : {A : Type 0} → ℕ → Option A → Result ℕ A
or_exit code none = err code
or_exit code (some a) = ok a
