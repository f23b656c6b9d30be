-- ===== src/Command/Send.antt =====
-- cmd/gocloak-send/main.go: the arguments, one dial, one message, and the exit code.

pub mod ExitCodes
use gocloak.Base.{
  ℕ, Bool, true, false, not, Bytes, List, [], ◌∷◌, ◌++◌, Option, none, some, Result, ok, err, ◌>>=◌,
  ◌>>◌, fail_if, map_err, codes, length, nat_beq, if◌then◌else◌, ℤ,
}
use gocloak.Client.Dialing.{TunnelError, invalid_service_name, handshake_timeout}
use gocloak.Client.{ClientError, DialError, denied, backend_unavailable, rate_limited, hello}
use gocloak.Client
use gocloak.Command.{Parsed, help, bad_flags, parsed, Outcome, or_exit}
use gocloak.Config.{Parsers, wg_key_len}
use gocloak.Conn.{Conn}
use gocloak.Msg.{MsgError, send, digits}
use gocloak.Net.{Addr}
use gocloak.Secret.{SecretRef, is_empty}
use gocloak.Wire.{valid_service_name}

abbrev pub exit_ok : ℕ
exit_ok = 0

abbrev pub exit_error : ℕ
exit_error = 1

abbrev pub exit_usage : ℕ
exit_usage = 2

abbrev pub exit_denied : ℕ
exit_denied = 10

abbrev pub exit_backend_unavailable : ℕ
exit_backend_unavailable = 11

abbrev pub exit_rate_limited : ℕ
exit_rate_limited = 12

abbrev pub exit_handshake_timeout : ℕ
exit_handshake_timeout = 13

abbrev pub exit_invalid_service_name : ℕ
exit_invalid_service_name = 14

-- The values of the flags, and the positional arguments.
pub record Flags : Type 0 where
  pub endpoint : Bytes
  pub server_key : Bytes
  pub key : Bytes
  pub psk : Bytes
  pub tunnel_ip : Bytes
  pub service : Bytes
  pub timeout : ℤ
  pub args : List Bytes

-- `sendConfig`
pub record SendConfig : Type 0 where
  pub endpoint : Bytes
  pub server_key : Bytes
  pub key_ref : SecretRef
  pub psk_ref : SecretRef
  pub tunnel_ip : Addr
  pub service : Bytes
  pub timeout : ℤ
  pub message : Bytes

abbrev named : Bytes → Bytes → List Bytes → List Bytes
named value name rest = if is_empty value then name ∷ rest else rest

-- The `missing` of `parseArgs`.
unfoldable pub missing : Flags → List Bytes
missing f = named f.endpoint (codes "--endpoint") (
    named f.server_key (codes "--server-key") (
      named f.key (codes "--key") (
        named f.psk (codes "--psk") (
          named f.tunnel_ip (codes "--tunnel-ip") (
            named f.service (codes "--service")
              (elim f.args [ [] ↦ codes "message (positional argument)" ∷ [] | _ ∷ _ ↦ [] ]))))))

abbrev pub no_message : List Bytes → Bool
no_message [] = true
no_message (_ ∷ _) = false

abbrev pub first_arg : List Bytes → Bytes
first_arg [] = []
first_arg (message ∷ _) = message

-- `parseArgs` behind the flags: a configuration, or an exit code.
unfoldable pub check_flags : Parsers → Flags → Result ℕ SendConfig
check_flags lib f = do
  fail_if (not (no_message (missing f))) exit_usage
  key_bytes ← or_exit exit_usage (lib.decode_base64 f.server_key)
  fail_if (not (nat_beq (length key_bytes) wg_key_len)) exit_usage
  tunnel_ip ← or_exit exit_usage (lib.parse_addr f.tunnel_ip)
  ok (record {
    endpoint = f.endpoint;
    server_key = f.server_key;
    key_ref = f.key;
    psk_ref = f.psk;
    tunnel_ip = tunnel_ip;
    service = f.service;
    timeout = f.timeout;
    message = first_arg f.args;
  })

-- `parseArgs`
unfoldable pub parse_args : Parsers → Parsed Flags → Result ℕ SendConfig
parse_args lib help = err exit_ok
parse_args lib bad_flags = err exit_usage
parse_args lib (parsed f) = check_flags lib f

-- What `NewClient` or `Dial` can return.
pub data SendError : Type 0 where
  no_client : ClientError → SendError
  no_tunnel : TunnelError → SendError
  no_service : DialError → SendError

-- `reportError`, less the text it prints.
unfoldable pub report_error : SendError → ℕ
report_error (no_tunnel handshake_timeout) = exit_handshake_timeout
report_error (no_tunnel invalid_service_name) = exit_invalid_service_name
report_error (no_service denied) = exit_denied
report_error (no_service backend_unavailable) = exit_backend_unavailable
report_error (no_service rate_limited) = exit_rate_limited
report_error (no_service Client.invalid_service_name) = exit_invalid_service_name
report_error _ = exit_error

-- What is outside: what `NewClient` gives, what `dialControl` gives, whether `SetDeadline` fails, and the
-- milliseconds that the exchange takes.
pub record Network : Type 0 where
  pub client : Result ClientError (Unit {0})
  pub control : Result TunnelError Conn
  pub deadline_fails : Bool
  pub elapsed : ℕ

-- `Client.Dial` on a client that is not closed, with a budget that lasts: Client/Exchange has the others.
unfoldable pub dial : Network → Bytes → Result SendError Conn
dial net service = do
  fail_if (not (valid_service_name service)) (no_tunnel invalid_service_name)
  conn ← map_err no_tunnel net.control
  map_err no_service (hello service conn)

-- `sendMessage` up to the acknowledgement: the exit code if it fails.
unfoldable pub deliver : Network → SendConfig → Result ℕ Bytes
deliver net cfg = do
  map_err (λ e. report_error (no_client e)) net.client
  conn ← map_err report_error (dial net cfg.service)
  fail_if net.deadline_fails exit_error
  (ack, conn') ← map_err (λ e. exit_error) (send cfg.message conn)
  ok (
      codes "sent "
      ++ (digits 20 (length cfg.message)
          ++ (codes " bytes, ack in " ++ (digits 20 net.elapsed ++ codes "ms"))))

-- `sendMessage`
unfoldable pub send_message : Network → SendConfig → Outcome
send_message net cfg = elim (deliver net cfg) [
  | err code ↦ record { exit = code; stdout = [] }
  | ok line ↦ record { exit = exit_ok; stdout = line ∷ [] }
]

-- `run`
unfoldable pub run_send : Parsers → Network → Parsed Flags → Outcome
run_send lib net args = elim (parse_args lib args) [
  | err code ↦ record { exit = code; stdout = [] }
  | ok cfg ↦ send_message net cfg
]
