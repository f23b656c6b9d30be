-- ===== src/Tests/Running.antt =====
-- server.go, `Run` and `handleReload`: a server that starts with one peer, which a reload then removes.
use gocloak.Base.{
  ℕ, ◌≡◌, ◌↔◌, refl, false, Bytes, List, [], ◌∷◌, none, some, ok, codes, Any, All, lookup, insert,
  bytes_beq, index_byte, arith,
}
use gocloak.Config.Peers.Loaded.{Lists}
use gocloak.Config.Peers.{PeersConfig, load_peers_config, check_peers_config, load_peers}
use gocloak.Config.Reload.{Event, debounced}
use gocloak.Config.Yaml.{decode_strict}
use gocloak.Config.{prefix_contains}
use gocloak.Device.{key_to_hex, set_block, ipc_config, apply_device_peer}
use gocloak.Limiter.{Limiter}
use gocloak.Net.{Addr, AddrPort, addr_port_beq, addr_beq}
use gocloak.Policy.{resolve, new_policy, add_peers}
use gocloak.Secret.{
  Host, resolve_secret_ref, parse_secret_ref, split_ref, valid_scheme_name, valid_scheme_bytes,
  resolve_env,
}
use gocloak.Server.Apply.Simulated.{IsSpelt}
use gocloak.Server.Apply.{apply_peer, apply_resolved, resolve_secret, Applied}
use gocloak.Server.Reload.Follows.{Follows}
use gocloak.Server.Reload.InForce.{serve_events-Follows-launch}
use gocloak.Server.Reload.{
  Running, launch, install_peers, refresh_and_close, no_peers_yet, serve_events,
}
use gocloak.Tests.Apply.{Peers, simulator, texts, interface, key}
use gocloak.Tests.Config.{raw, config, loaded}
use gocloak.Tests.Data.{parsers, laptop_peer}
use gocloak.Tests.Reload.{watcher, file, starts}

abbrev pub host : Host
host = record { open_file = λ path. none; lookup_env = λ name. some (codes "AAAA") }

abbrev pub heap : ℕ → Limiter
heap l = record {
  public_key = [];
  max_concurrent = 0;
  rate = 0;
  burst = 0;
  tokens = 0;
  last = 0;
  active = 0;
  live = [];
}

abbrev installed : Applied Peers
installed =
    apply_peer texts simulator host none false laptop_peer
      (record { cache = (codes "env:KEY", codes "AAAA") ∷ []; tunnel = λ k. false; errors = [] })

abbrev running : Running Peers
running =
    let (server, closed) = refresh_and_close 0 (laptop_peer ∷ []) (no_peers_yet heap) in
    record {
      watcher = watcher;
      server = server;
      cache = installed.cache;
      tunnel = installed.tunnel;
      errors = [];
      closed = closed;
    }

launched :
    launch parsers texts simulator host none
      (codes "env:KEY")
      0
      heap
      watcher
      ((codes "env:KEY", codes "AAAA") ∷ [])
      (λ k. false)
    ≡ ok running
unfolding launch install_peers apply_peer apply_resolved resolve_secret resolve_secret_ref
    parse_secret_ref split_ref index_byte valid_scheme_name valid_scheme_bytes resolve_env bytes_beq
    apply_device_peer set_block ipc_config key_to_hex lookup insert addr_port_beq addr_beq
    prefix_contains
launched = refl

abbrev events : List (ℕ × Event)
events = (7, debounced (record { size = 10; mod_time = 2 }) (some (file []))) ∷ []

pub spelt :
    (c : PeersConfig)
    → load_peers_config parsers (some (file raw)) ≡ ok c
    → All (IsSpelt texts key (codes "AAAA")) c.peers
unfolding load_peers_config decode_strict
spelt c e = let same : config ≡ c = ground (arith, loaded) in rw (← same) ((λ h. refl), tt)

emptied :
    (c : PeersConfig)
    → load_peers_config parsers (some (file [])) ≡ ok c
    → All (IsSpelt texts key (codes "AAAA")) c.peers
unfolding load_peers_config decode_strict check_peers_config load_peers new_policy add_peers
emptied c e = let none_left : [] ≡ c.peers = ground arith in rw (← none_left) tt

serve_events-Follows-launch_example :
    let s' = serve_events parsers texts simulator host none (codes "env:KEY") events running in
    ((ip : Addr) (service : Bytes) (backend : AddrPort)
      → (resolve s'.watcher.cur.policy ip service ≡ some backend)
        ↔ Any (Lists ip service backend) s'.watcher.cur.peers)
    × Follows parsers texts simulator interface host none (codes "env:KEY") key (codes "AAAA") s'
unfolding interface
serve_events-Follows-launch_example =
    serve_events-Follows-launch parsers texts simulator interface host none (codes "env:KEY") key
      (codes "AAAA") 0 heap (record { size = 100; mod_time = 1 }) (some (file raw)) watcher
      (codes "AAAA") (λ k. false) running events starts spelt refl launched (emptied, tt)
