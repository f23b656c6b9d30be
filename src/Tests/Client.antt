-- ===== src/Tests/Client.antt =====
-- client.go on concrete answers, and server.go on a concrete configuration.
use gocloak.Base.{
  ◌≡◌, ◌↔◌, refl, true, [], ◌∷◌, ◌++◌, some, Result, ok, codes, bytes_beq, pos, index_byte,
}
use gocloak.Client.Hello.{exchanged, hello_iff}
use gocloak.Client.{hello}
use gocloak.Config.Peers.{LoadError, PeersConfig}
use gocloak.Config.Server.{ServerYaml, ServerFileConfig, check_server_config}
use gocloak.Config.{parse_tunnel_ip, valid_secret_ref, server_tunnel_ip}
use gocloak.Conn.{Conn}
use gocloak.Net.{addr_beq, unmap}
use gocloak.Secret.{parse_secret_ref, split_ref, valid_scheme_name, valid_scheme_bytes}
use gocloak.Server.Start.Accepted.{new_server-check_server_config}
use gocloak.Server.Start.{server_config_from, new_server}
use gocloak.Tests.Config.{config}
use gocloak.Tests.Data.{db, parsers, open_conn}
use gocloak.Wire.Responses.{response_frame}
use gocloak.Wire.{status_ok, valid_service_name}

abbrev answer : Conn
answer = open_conn (1 ∷ 0 ∷ 42 ∷ [])

name_is_valid : valid_service_name db ≡ true
unfolding valid_service_name
name_is_valid = refl

hello_iff_example :
    (hello db answer ≡ ok (exchanged db (42 ∷ []) answer))
    ↔ (answer.incoming ≡ response_frame status_ok ++ (42 ∷ []))
hello_iff_example = hello_iff db (42 ∷ []) answer name_is_valid refl

abbrev pub yaml : ServerYaml
yaml = record {
  listen_port = pos 51820;
  private_key = codes "file:/k";
  tunnel_ip = codes "10.99.0.1";
  mtu = pos 0;
  peers_file = codes "peers.yaml";
  log_format = [];
}

abbrev pub file_config : ServerFileConfig
file_config = record {
  listen_port = pos 51820;
  private_key = codes "file:/k";
  tunnel_ip = server_tunnel_ip;
  mtu = pos 1280;
  peers_file = codes "peers.yaml";
  log_format = codes "json";
}

checked : check_server_config parsers yaml ≡ ok file_config
unfolding check_server_config valid_secret_ref parse_secret_ref split_ref index_byte
    valid_scheme_name valid_scheme_bytes parse_tunnel_ip unmap addr_beq bytes_beq
checked = refl

new_server-check_server_config_example :
    new_server (server_config_from (some file_config)) (ok config)
    ≡ ok (server_config_from (some file_config))
new_server-check_server_config_example =
    new_server-check_server_config parsers yaml file_config config checked

abbrev loading : Result LoadError PeersConfig
loading = ok config
