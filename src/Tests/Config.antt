-- ===== src/Tests/Config.antt =====
-- config.go on a peers file with one peer, and on an empty one.
use gocloak.Base.{
  ◌≡◌, ◌↔◌, refl, List, [], ◌∷◌, some, ok, codes, Any, lookup, insert, contains, bytes_beq,
  index_byte,
}
use gocloak.Config.Diff.Exact.{IsAdded, IsChanged, diff_peers_iff}
use gocloak.Config.Diff.Keys.{find}
use gocloak.Config.Diff.{diff_peers}
use gocloak.Config.Peers.Loaded.{
  IsPeersConfig, Lists, check_peers_config-IsPeersConfig, resolve-check_peers_config,
}
use gocloak.Config.Peers.Valid.{IsPeerConfig, validate_peer-IsPeerConfig}
use gocloak.Config.Peers.{
  PeerConfig, PeersConfig, PeerYaml, parse_allow, check_host, check_limits, validate_peer,
  check_seen, load_peers, check_peers_config,
}
use gocloak.Config.{
  prefix_contains, masked, subnet_broadcast, parse_tunnel_ip, valid_public_key, valid_secret_ref,
}
use gocloak.Net.{unmap, addr_beq}
use gocloak.Policy.{copy_allow, add_peer, add_peers, new_policy, resolve}
use gocloak.Secret.{parse_secret_ref, split_ref, valid_scheme_name, valid_scheme_bytes}
use gocloak.Tests.Data.{db, laptop, backend, parsers, laptop_yaml, laptop_peer}
use gocloak.Tests.Policy.{policy}
use gocloak.Wire.{valid_service_name}

valid : validate_peer parsers laptop_yaml ≡ ok laptop_peer
unfolding validate_peer valid_service_name valid_public_key valid_secret_ref parse_secret_ref
    split_ref index_byte valid_scheme_name valid_scheme_bytes parse_tunnel_ip check_host
    prefix_contains masked subnet_broadcast check_limits parse_allow insert unmap addr_beq bytes_beq
valid = refl

validate_peer-IsPeerConfig_example : IsPeerConfig parsers laptop_yaml laptop_peer
validate_peer-IsPeerConfig_example =
    validate_peer-IsPeerConfig parsers laptop_yaml laptop_peer valid

abbrev pub raw : List PeerYaml
raw = laptop_yaml ∷ []

abbrev pub config : PeersConfig
config = record { peers = laptop_peer ∷ []; policy = policy }

pub loaded : check_peers_config parsers raw ≡ ok config
unfolding check_peers_config load_peers check_seen contains new_policy add_peers add_peer copy_allow
    lookup insert validate_peer valid_service_name valid_public_key valid_secret_ref
    parse_secret_ref split_ref index_byte valid_scheme_name valid_scheme_bytes parse_tunnel_ip
    check_host prefix_contains masked subnet_broadcast check_limits parse_allow unmap addr_beq
    bytes_beq
loaded = refl

check_peers_config-IsPeersConfig_example : IsPeersConfig parsers raw config
check_peers_config-IsPeersConfig_example =
    check_peers_config-IsPeersConfig parsers raw config loaded

resolve-check_peers_config_example :
    (resolve config.policy laptop db ≡ some backend) ↔ Any (Lists laptop db backend) config.peers
resolve-check_peers_config_example =
    resolve-check_peers_config parsers raw config laptop db backend loaded

abbrev moved : PeerConfig
moved = record laptop_peer { psk = codes "env:NEW_PSK" }

diff_peers_iff_example :
    ((find (codes "AAAA") (diff_peers (laptop_peer ∷ []) (moved ∷ [])).added ≡ some moved)
      ↔ IsAdded (codes "AAAA") (laptop_peer ∷ []) (moved ∷ []) moved)
    × ((find (codes "AAAA") (diff_peers (laptop_peer ∷ []) (moved ∷ [])).removed ≡ some moved)
        ↔ IsAdded (codes "AAAA") (moved ∷ []) (laptop_peer ∷ []) moved)
    × ((find (codes "AAAA") (diff_peers (laptop_peer ∷ []) (moved ∷ [])).changed ≡ some moved)
        ↔ IsChanged (codes "AAAA") (laptop_peer ∷ []) (moved ∷ []) moved)
unfolding lookup
diff_peers_iff_example =
    diff_peers_iff (laptop_peer ∷ []) (moved ∷ []) (codes "AAAA") moved (tt, tt) (tt, tt)
      ((refl, tt), tt) ((refl, tt), tt)
