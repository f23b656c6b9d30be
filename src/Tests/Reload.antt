-- ===== src/Tests/Reload.antt =====
-- config.go, `peerWatcher`: a reload that removes the only peer.
use gocloak.Base.{◌≡◌, ◌⊎◌, All, refl, true, false, List, [], ◌∷◌, some, ok, codes, bytes_beq}
use gocloak.Config.Peers.{load_peers_config, check_peers_config, load_peers}
use gocloak.Config.Reload.InForce.{IsFailed, IsOf, LastLoaded, run_events-InForce}
use gocloak.Config.Reload.Reports.{has_entry}
use gocloak.Config.Diff.Keys.{find}
use gocloak.Config.Reload.{
  Watcher, Event, debounced, new_watcher, reload_locked, run_event, run_events,
}
use gocloak.Config.Yaml.{Documents, document, at_eof, decode_strict}
use gocloak.Config.Peers.{PeerYaml}
use gocloak.Policy.{new_policy, add_peers}
use gocloak.Tests.Config.{raw, config, loaded}
use gocloak.Tests.Data.{parsers}

abbrev pub file : List PeerYaml → Documents (List PeerYaml)
file peers = record { first = document peers; second = at_eof }

abbrev pub watcher : Watcher
watcher = record { cur = config; seen = record { size = 100; mod_time = 1 } }

abbrev events : List Event
events = debounced (record { size = 10; mod_time = 2 }) (some (file [])) ∷ []

pub starts :
    new_watcher (record { size = 100; mod_time = 1 }) (load_peers_config parsers (some (file raw)))
    ≡ ok watcher
unfolding new_watcher load_peers_config decode_strict
starts = rw loaded refl

run_events-InForce_example :
    (All IsFailed (run_events parsers events watcher).1
      × IsOf parsers (some (file raw)) (run_events parsers events watcher).0.cur)
    ⊎ LastLoaded parsers events watcher
run_events-InForce_example =
    run_events-InForce parsers (record { size = 100; mod_time = 1 }) (some (file raw)) watcher
      events starts

listed : has_entry (codes "AAAA") watcher.cur.peers ≡ true
unfolding find bytes_beq
listed = refl

gone : has_entry (codes "AAAA") (run_events parsers events watcher).0.cur.peers ≡ false
unfolding find run_events run_event reload_locked load_peers_config decode_strict check_peers_config
    load_peers new_policy add_peers
gone = refl
