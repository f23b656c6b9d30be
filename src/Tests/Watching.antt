-- ===== src/Tests/Watching.antt =====
-- config.go, `peerWatcher.Run`: a peers file that is emptied, once with an event and once without.
use gocloak.Base.{
  ℕ, ◌≡◌, ◌≤◌, refl, true, false, List, [], ◌∷◌, Option, none, some, ok, codes, Any, ltb, arith,
  bytes_beq, if◌then◌else◌,
}
use gocloak.Config.Peers.{PeersConfig, load_peers_config, check_peers_config, load_peers}
use gocloak.Config.Reload.Reports.{has_entry, Removes}
use gocloak.Config.Reload.{new_watcher}
use gocloak.Config.Watch.CaughtUp.{ShowsChanges, run_watch-catches_up}
use gocloak.Config.Watch.Served.{first_end, run_watch-no_removal_lost}
use gocloak.Config.Watch.{
  Files, Watching, Faults, Happening, RunEnd, file_event, debounce_fired, rearm_ticked, cancelled,
  new_peer_watcher, watch_directory, run_watch, serve_happening, reloads,
}
use gocloak.Config.Yaml.{decode_strict}
use gocloak.Policy.{new_policy, add_peers}
use gocloak.Tests.Config.{raw, loaded}
use gocloak.Tests.Data.{parsers}
use gocloak.Tests.Reload.{watcher, file}

-- The file is emptied after 1000 nanoseconds.
abbrev files : Files
files = record {
  info = λ t. some (
      if ltb t 1000
      then record { size = 100; mod_time = 1 }
      else record { size = 10; mod_time = 1000 });
  contents = λ t. some (file (if ltb t 1000 then raw else []));
}

shows : ShowsChanges files
shows = record { kept = λ a m n before after same. ground arith }

abbrev no_faults : Faults
no_faults = record { abs_fails = false; new_fails = false; add_fails = false }

abbrev started : Watching
started = record { watcher = watcher; due = none; clock = 5; refreshed = 0; reports = [] }

starts : (new_peer_watcher parsers files no_faults 0 5).0 ≡ ok started
unfolding new_peer_watcher watch_directory new_watcher load_peers_config decode_strict
starts = rw loaded refl

abbrev emptied : PeersConfig
emptied = record { peers = []; policy = record { peers = [] } }

loads_empty : load_peers_config parsers (files.contents 3000) ≡ ok emptied
unfolding load_peers_config decode_strict check_peers_config load_peers new_policy add_peers
loads_empty = refl

abbrev run : List (ℕ × Happening) → Watching → Watching × Option RunEnd
run = run_watch parsers files (λ name. name) (codes "peers.yaml")

-- An event for another file changes nothing, and the one for the peers file is lost.
abbrev other_event : List (ℕ × Happening)
other_event = (7, file_event (codes "server.yaml") true) ∷ []

abbrev idle : Watching
idle = record started { clock = 12 }

ran : run other_event started ≡ (idle, none)
unfolding run_watch serve_happening bytes_beq
ran = refl

ready : (run ((1995, rearm_ticked 1 1) ∷ []) idle).0.clock ≤ 3000
unfolding run_watch serve_happening reloads
ready = omega arith

run_watch-catches_up_example : (run ((1995, rearm_ticked 1 1) ∷ []) idle).0.watcher.cur ≡ emptied
run_watch-catches_up_example =
    run_watch-catches_up parsers files (λ name. name) (codes "peers.yaml") no_faults 0 5 started
      idle other_event 1995 1 1 3000 emptied shows starts ran ready refl loads_empty

abbrev happenings : List (ℕ × Happening)
happenings =
    (1995, file_event (codes "peers.yaml") true)
    ∷ (50000000, debounce_fired 3)
    ∷ (9, cancelled)
    ∷ []

abbrev ended : Watching × Option RunEnd
ended = run happenings started

run_watch-no_removal_lost_example :
    (ended.1 ≡ first_end happenings)
    × (has_entry (codes "AAAA") watcher.cur.peers ≡ true
        → has_entry (codes "AAAA") ended.0.watcher.cur.peers ≡ false
        → Any (Removes (codes "AAAA")) ended.0.reports)
run_watch-no_removal_lost_example =
    run_watch-no_removal_lost parsers files (λ name. name) (codes "peers.yaml") happenings started
      (codes "AAAA") refl
