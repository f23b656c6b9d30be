-- ===== src/Config/Reload.antt =====
-- config.go, `peerWatcher`: the peer list in force and the reloads that replace it.
pub mod Reports
pub mod InForce
use gocloak.Base.{
  ℕ, Bool, true, false, not, ◌&&◌, Bytes, List, [], ◌∷◌, ◌++◌, Option, none, some, Result, ok, err,
  ◌>>=◌, length, nat_beq, if◌then◌else◌,
}
use gocloak.Config.Diff.{PeerDiff, empty_diff, diff_peers}
use gocloak.Config.Peers.{PeerYaml, LoadError, PeersConfig, load_peers_config}
use gocloak.Config.Yaml.{Documents}
use gocloak.Config.{Parsers}

-- `fileID`; a file that cannot be read has the zero one. The time is a count of nanoseconds.
pub record FileId : Type 0 where
  pub size : ℕ
  pub mod_time : ℕ

abbrev pub file_id_beq : FileId → FileId → Bool
file_id_beq a b = nat_beq a.size b.size && nat_beq a.mod_time b.mod_time

-- `reloadResult`, less the path, which is constant.
pub record ReloadResult : Type 0 where
  pub error : Option LoadError
  pub peer_count : ℕ
  pub diff : PeerDiff

-- The fields of `peerWatcher` that change.
pub record Watcher : Type 0 where
  pub cur : PeersConfig
  pub seen : FileId

-- `newPeerWatcher`: what `statFileID` and then `LoadPeersConfig` gave at startup.
unfoldable pub new_watcher : FileId → Result LoadError PeersConfig → Result LoadError Watcher
new_watcher id loaded = do cfg ← loaded; ok (record { cur = cfg; seen = id })

-- `reloadLocked`, from what `statFileID` and then `LoadPeersConfig` gave.
unfoldable pub reload_locked :
    FileId → Result LoadError PeersConfig → Watcher → Watcher × ReloadResult
reload_locked id (err e) w = (
  record w { seen = id },
  record { error = some e; peer_count = length w.cur.peers; diff = empty_diff },
)
reload_locked id (ok cfg) w = (
  record { cur = cfg; seen = id },
  record { error = none; peer_count = length cfg.peers; diff = diff_peers w.cur.peers cfg.peers },
)

-- The cases of the loop of `Run` that may reload. `debounced` is the debounce timer, `rearmed` the
-- periodic tick with the identity that its own `statFileID` gave; both carry what a reload finds.
pub data Event : Type 0 where
  debounced : FileId → Option (Documents (List PeerYaml)) → Event
  rearmed : FileId → FileId → Option (Documents (List PeerYaml)) → Event

abbrev reported : Watcher × ReloadResult → Watcher × List ReloadResult
reported (w, r) = (w, r ∷ [])

-- One round of the loop of `Run`: the watcher, and what it hands to `report`.
unfoldable pub run_event : Parsers → Event → Watcher → Watcher × List ReloadResult
run_event lib (debounced id file) w = reported (reload_locked id (load_peers_config lib file) w)
run_event lib (rearmed checked id file) w =
    if not (file_id_beq checked w.seen)
    then reported (reload_locked id (load_peers_config lib file) w)
    else (w, [])

unfoldable pub run_events : Parsers → List Event → Watcher → Watcher × List ReloadResult
run_events lib [] w = (w, [])
run_events lib (e ∷ es) w =
    let (w1, r1) = run_event lib e w in let (w2, r2) = run_events lib es w1 in (w2, r1 ++ r2)
