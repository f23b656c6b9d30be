-- ===== src/Tests/Identity.antt =====
-- server.go, `Run` and `handleReload`: a server with one peer reloads its file, on a device with routes.
use gocloak.Base.{
  ℕ, ◌≡◌, ◌↔◌, refl, true, false, List, [], ◌∷◌, none, some, ok, codes, Any, lookup, insert,
  contains, bytes_beq, index_byte,
}
use gocloak.Config.Diff.{
  diff_peers, by_key, diff_next, diff_prev, note_next, peer_equal, maps_equal,
}
use gocloak.Config.Peers.{load_peers_config}
use gocloak.Config.Reload.{Event, debounced, run_event, reload_locked}
use gocloak.Config.Yaml.{decode_strict}
use gocloak.Config.{prefix_contains}
use gocloak.Device.{key_to_hex, set_block, ipc_config, apply_device_peer}
use gocloak.Net.{addr_port_beq, addr_beq, unmap}
use gocloak.Policy.{resolve}
use gocloak.Secret.{
  resolve_secret_ref, parse_secret_ref, split_ref, valid_scheme_name, valid_scheme_bytes,
  resolve_env,
}
use gocloak.Server.Apply.{
  Applied, apply_diff, apply_all, revoke_all, apply_peer, apply_resolved, resolve_secret,
}
use gocloak.Server.Reload.Identity.{GrantedTo, serve_events-identity}
use gocloak.Server.Reload.{
  Running, launch, install_peers, refresh_and_close, no_peers_yet, serve_events, serve_event,
  handle_reports, handle_reload, follow_reload,
}
use gocloak.Tests.Apply.{texts, key}
use gocloak.Tests.Config.{raw, loaded}
use gocloak.Tests.Data.{parsers, laptop_peer, laptop, db, backend}
use gocloak.Tests.Reload.{watcher, file, starts}
use gocloak.Tests.Routing.{Tunnel, router, interface, cryptokey}
use gocloak.Tests.Running.{host, heap, spelt}

abbrev bare : Tunnel
bare = record { peers = λ k. false; table = λ ip k. false }

abbrev installed : Applied Tunnel
installed =
    apply_peer texts router host none false laptop_peer
      (record { cache = (codes "env:KEY", codes "AAAA") ∷ []; tunnel = bare; errors = [] })

abbrev running : Running Tunnel
running =
    let (server, closed) = refresh_and_close 0 (laptop_peer ∷ []) (no_peers_yet heap) in
    record {
      watcher = watcher;
      server = server;
      cache = installed.cache;
      tunnel = installed.tunnel;
      errors = [];
      closed = closed;
    }

launched :
    launch parsers texts router host none
      (codes "env:KEY")
      0
      heap
      watcher
      ((codes "env:KEY", codes "AAAA") ∷ [])
      bare
    ≡ ok running
unfolding launch install_peers apply_peer apply_resolved resolve_secret resolve_secret_ref
    parse_secret_ref split_ref index_byte valid_scheme_name valid_scheme_bytes resolve_env bytes_beq
    apply_device_peer set_block ipc_config key_to_hex lookup insert addr_port_beq addr_beq
    prefix_contains
launched = refl

-- The file was touched, and holds what it held.
abbrev events : List (ℕ × Event)
events = (7, debounced (record { size = 100; mod_time = 2 }) (some (file raw))) ∷ []

abbrev served : Running Tunnel
served = serve_events parsers texts router host none (codes "env:KEY") events running

no_errors : served.errors ≡ []
unfolding serve_events serve_event run_event handle_reports handle_reload follow_reload
    reload_locked apply_diff apply_all revoke_all diff_peers by_key diff_next diff_prev note_next
    peer_equal maps_equal lookup insert contains bytes_beq addr_port_beq addr_beq load_peers_config
    decode_strict
no_errors = rw loaded refl

serve_events-identity_example :
    ((resolve served.watcher.cur.policy laptop db ≡ some backend)
      × (cryptokey.routed served.tunnel (unmap laptop) key ≡ true))
    ↔ Any (GrantedTo texts key laptop db backend) served.watcher.cur.peers
unfolding interface cryptokey
serve_events-identity_example =
    serve_events-identity parsers texts router interface cryptokey host none (codes "env:KEY") key
      (codes "AAAA") 0 heap (record { size = 100; mod_time = 1 }) (some (file raw)) watcher
      (codes "AAAA") bare running events laptop db backend starts spelt refl refl launched
      (spelt, tt) no_errors
