-- ===== src/Tests/Command.antt =====
-- The commands on concrete files, answers and configurations.
use gocloak.Base.{
  ◌≡◌, ◌≢◌, ◌↔◌, refl, true, false, bytes_eq, bytes_beq, [], ◌∷◌, ◌++◌, Option, none, some, Result,
  ok, codes, pos, lookup,
}
use gocloak.Command.Keygen.Outcomes.{
  run_keygen_keeps, run_keygen_outcomes, Leaves, LeavesNothing, outcome,
}
use gocloak.Command.Keygen.{Files, Faults, Machine, Minted, run_keygen}
use gocloak.Command.Send.ExitCodes.{Answers, Delivered, send_message_exit}
use gocloak.Command.Send.{
  SendConfig, Network, send_message, exit_ok, exit_denied, exit_backend_unavailable,
  exit_rate_limited,
}
use gocloak.Command.Serve.Exit.{Runs, run_serve_exit}
use gocloak.Command.Serve.{run_serve}
use gocloak.Command.{parsed}
use gocloak.Config.Peers.{LoadError, PeersConfig}
use gocloak.Config.Server.{ServerYaml}
use gocloak.Config.Yaml.{Documents, document, at_eof}
use gocloak.Conn.{Conn}
use gocloak.Server.Run.{Session}
use gocloak.Tests.Apply.{simulator, texts}
use gocloak.Tests.Client.{yaml}
use gocloak.Tests.Config.{config}
use gocloak.Tests.Data.{db, laptop, parsers, open_conn, zeros}
use gocloak.Tests.Dialing.{stack}
use gocloak.Tests.Running.{host, heap}
use gocloak.Wire.{
  status_denied, status_backend_unavailable, status_rate_limited, valid_service_name,
}

abbrev works : Faults
works = record {
  open_fails = false;
  write_fails = false;
  sync_fails = false;
  close_fails = false;
  remove_fails = false;
  partial = [];
}

-- The sync of the second file fails.
abbrev machine : Machine
machine = record {
  working_dir = some (codes "/etc");
  random_key = some (zeros 32);
  random_psk = some (zeros 32);
  base64 = λ bytes. codes "AAAA";
  x25519 = λ key. some key;
  join_path = λ dir name. dir ++ (b'/' ∷ name);
  key_faults = works;
  psk_faults = record works { sync_fails = true };
  remove_fails = false;
}

abbrev files : Files
files = (codes "/etc/laptop.key", codes "old") ∷ []

run_keygen_keeps_example :
    lookup (codes "/etc/laptop.key") (run_keygen machine (parsed (codes "laptop", [])) files).0
    ≡ some (codes "old")
unfolding lookup bytes_beq
run_keygen_keeps_example =
    run_keygen_keeps machine (parsed (codes "laptop", [])) files (codes "/etc/laptop.key")
      (codes "old") refl

run_keygen_outcomes_example :
    ((outcome machine (codes "laptop", []) files).exit ≡ 0
      → (k : Minted) × Leaves machine (codes "laptop", []) files k)
    × ((outcome machine (codes "laptop", []) files).exit ≢ 0
        → machine.key_faults.remove_fails ≡ false
        → machine.psk_faults.remove_fails ≡ false
        → machine.remove_fails ≡ false
        → LeavesNothing machine (codes "laptop", []) files)
run_keygen_outcomes_example = run_keygen_outcomes machine (codes "laptop", []) files

abbrev denying : Conn
denying = open_conn (1 ∷ 1 ∷ [])

abbrev network : Network
network = record { client = ok tt; control = ok denying; deadline_fails = false; elapsed = 12 }

abbrev sending : SendConfig
sending = record {
  endpoint = codes "vpn.test:51820";
  server_key = codes "AAAA";
  key_ref = codes "env:KEY";
  psk_ref = codes "env:PSK";
  tunnel_ip = laptop;
  service = db;
  timeout = pos 10;
  message = codes "hello";
}

named : valid_service_name sending.service ≡ true
unfolding valid_service_name
named = refl

send_message_exit_example :
    ((send_message network sending).exit ≡ exit_denied ↔ Answers status_denied denying)
    × ((send_message network sending).exit ≡ exit_backend_unavailable
        ↔ Answers status_backend_unavailable denying)
    × ((send_message network sending).exit ≡ exit_rate_limited
        ↔ Answers status_rate_limited denying)
    × ((send_message network sending).exit ≡ exit_ok
        ↔ Delivered network sending denying refl refl refl named)
send_message_exit_example = send_message_exit network sending denying refl refl refl named

abbrev session : Session
session = record {
  listen_fails = false;
  accept_fails = false;
  watch_fails = false;
  drain_overruns = true;
}

abbrev loads : Result LoadError PeersConfig
loads = ok config

abbrev server_yaml : Option (Documents ServerYaml)
server_yaml = some (record { first = document yaml; second = at_eof })

run_serve_exit_example :
    (run_serve parsers texts simulator stack host none heap
        (parsed (codes "server.yaml"))
        server_yaml
        loads
        loads
        session
        0
        (record { size = 10; mod_time = 2 })
      ≡ 0)
    ↔ Runs parsers texts simulator stack host none heap
        (codes "server.yaml")
        server_yaml
        loads
        loads
        session
        0
        (record { size = 10; mod_time = 2 })
run_serve_exit_example =
    run_serve_exit parsers texts simulator stack host none heap (codes "server.yaml") server_yaml
      loads loads session 0 (record { size = 10; mod_time = 2 }) (λ h. cc)
