-- ===== src/Command/Serve.antt =====
-- cmd/gocloak/main.go, `run` and `serve`: from server.yaml to a server that runs.
pub mod Exit
use gocloak.Base.{
  ℕ, Bool, true, false, Bytes, List, [], ◌∷◌, Option, none, some, Result, ok, err, ◌>>=◌, ◌>>◌,
  fail_if, map_err, codes, bytes_beq, if◌then◌else◌,
}
use gocloak.Command.{Parsed, help, bad_flags, parsed, or_exit}
use gocloak.Config.Peers.{LoadError, PeersConfig}
use gocloak.Config.Reload.{FileId}
use gocloak.Config.Server.{ServerYaml, ServerFileConfig, ServerError, check_server_config}
use gocloak.Config.Yaml.{Documents, DecodeError, decode_strict}
use gocloak.Config.{Parsers}
use gocloak.Device.Open.{Stack}
use gocloak.Device.{Texts, Wireguard}
use gocloak.Limiter.{Limiter}
use gocloak.Secret.{SecretResolver, Host, is_empty}
use gocloak.Server.Run.{RunError, Session, run}
use gocloak.Server.Start.{ServerConfig, StartError, server_config_from, new_server}

-- What the first argument asks for, with the arguments behind it.
pub data Choice : Type 0 where
  usage_error : Choice
  usage : Choice
  keygen : List Bytes → Choice
  serve : List Bytes → Choice

-- `run`, up to the call of the subcommand.
unfoldable pub choose : List Bytes → Choice
choose [] = usage_error
choose (command ∷ args) =
    if bytes_beq command (codes "keygen")
    then keygen args
    else if bytes_beq command (codes "serve")
    then serve args
    else if bytes_beq command (codes "-h")
    then usage
    else if bytes_beq command (codes "-help")
    then usage
    else if bytes_beq command (codes "--help")
    then usage
    else usage_error

-- The two handlers of log/slog.
pub data LogHandler : Type 0 where
  json text : LogHandler

-- `newLogHandler`
unfoldable pub new_log_handler : Bytes → Option LogHandler
new_log_handler format =
    if bytes_beq format (codes "json")
    then some json
    else if bytes_beq format (codes "text")
    then some text
    else none

pub data LoadServerError : Type 0 where
  unreadable : LoadServerError
  undecodable : DecodeError → LoadServerError
  not_valid : ServerError → LoadServerError

abbrev pub readable : {A : Type 0} → Option A → Result LoadServerError A
readable none = err unreadable
readable (some a) = ok a

-- `LoadServerConfig`, from what reading the file and decoding it as YAML give.
unfoldable pub load_server_config :
    Parsers → Option (Documents ServerYaml) → Result LoadServerError ServerFileConfig
load_server_config lib file = do
  docs ← readable file
  raw ← map_err undecodable (decode_strict docs)
  map_err not_valid (check_server_config lib raw)

abbrev pub failed : {E A : Type 0} → Result E A → Result ℕ A
failed = map_err (λ e. 1)

-- A run that ends without an error.
abbrev pub run_ok : Option RunError → Result ℕ (Unit {0})
run_ok none = ok tt
run_ok (some e) = err 1

module _ {W : Type 0} (lib : Parsers) (texts : Texts) (dev : Wireguard W) (stack : Stack W)
    (h : Host) (external : Option SecretResolver) (heap : ℕ → Limiter) where
  -- `runServe` on the value of `--config`, or the exit code of what fails. `file` is what server.yaml
  -- decodes to and `loaded` what the peers file gives, once for `NewServer` and once for the watcher.
  unfoldable pub serve_config :
      Bytes
      → Option (Documents ServerYaml)
      → Result LoadError PeersConfig
      → Result LoadError PeersConfig
      → Session
      → ℕ
      → FileId
      → Result ℕ (Unit {0})
  serve_config path file checked loaded s now id = do
    fail_if (is_empty path) 2
    fc ← failed (load_server_config lib file)
    _ ← or_exit 1 (new_log_handler fc.log_format)
    cfg ← failed (new_server (server_config_from (some fc)) checked)
    run_ok (run lib texts dev stack h external heap cfg false s now id loaded).0

  -- `runServe`
  unfoldable pub run_serve :
      Parsed Bytes
      → Option (Documents ServerYaml)
      → Result LoadError PeersConfig
      → Result LoadError PeersConfig
      → Session
      → ℕ
      → FileId
      → ℕ
  run_serve help file checked loaded s now id = 0
  run_serve bad_flags file checked loaded s now id = 2
  run_serve (parsed path) file checked loaded s now id =
      elim (serve_config path file checked loaded s now id) [ err code ↦ code | ok _ ↦ 0 ]
