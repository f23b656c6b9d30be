-- ===== src/Config/Watch.antt =====
-- config.go, `newPeerWatcher` and `peerWatcher.Run`: when the peers file is read again.
pub mod CaughtUp
pub mod Served
use gocloak.Base.{
  ℕ, suc, ◌+◌, ◌*◌, ◌^◌, Bool, true, false, Bytes, bytes_beq, List, [], ◌∷◌, ◌++◌, Option, none,
  some, Result, ok, err, leb, if◌then◌else◌,
}
use gocloak.Config.Peers.{PeerYaml, LoadError, load_peers_config}
use gocloak.Config.Reload.{
  FileId, Watcher, ReloadResult, Event, debounced, rearmed, new_watcher, run_event,
}
use gocloak.Config.Yaml.{Documents}
use gocloak.Config.{Parsers}

-- The peers file at each moment, in nanoseconds: what `os.Stat` tells of it, and what a read gives.
pub record Files : Type 0 where
  pub info : ℕ → Option FileId
  pub contents : ℕ → Option (Documents (List PeerYaml))

-- `statFileID`
abbrev pub stat_file_id : Files → ℕ → FileId
stat_file_id files t = elim (files.info t) [
  | none ↦ record { size = 0; mod_time = 0 }
  | some id ↦ id
]

-- `reloadDebounce`, 50 milliseconds.
abbrev pub reload_debounce : ℕ
reload_debounce = 50 * 10 ^ 6

-- What the loop waits for. An event of the file system has the name of its file, and tells if the file was
-- renamed or removed. The numbers are how long the loop then takes: from the firing of the debounce timer to
-- the read of the file; from the check of the periodic tick to the `Stat` of the reload, and from there to
-- the read.
pub data Happening : Type 0 where
  cancelled : Happening
  file_event : Bytes → Bool → Happening
  watch_failed events_closed errors_closed : Happening
  debounce_fired : ℕ → Happening
  rearm_ticked : ℕ → ℕ → Happening

-- The loop: the watcher, when the debounce timer fires, if it is set, the time, how often `rearmWatch` was
-- called, and what was handed to `report`.
pub record Watching : Type 0 where
  pub watcher : Watcher
  pub due : Option ℕ
  pub clock : ℕ
  pub refreshed : ℕ
  pub reports : List ReloadResult

-- How `Run` returns: with nil, or with the error that the watch is closed.
pub data RunEnd : Type 0 where
  stopped watch_closed : RunEnd

pub data StartError : Type 0 where
  no_path : StartError
  not_loaded : LoadError → StartError
  no_watch : StartError
  not_watched : StartError

-- What is opened and closed of fsnotify.
pub data WatchDeed : Type 0 where
  opens_watch closes_watch : WatchDeed

-- Which calls at the start fail: `filepath.Abs`, `fsnotify.NewWatcher` and its `Add`.
pub record Faults : Type 0 where
  pub abs_fails : Bool
  pub new_fails : Bool
  pub add_fails : Bool

abbrev pub resume :
    (Watching → Watching × Option RunEnd) → Watching × Option RunEnd → Watching × Option RunEnd
resume later (s, none) = later s
resume later (s, some e) = (s, some e)

abbrev pub wait : ℕ → Watching → Watching
wait t s = record s { clock = s.clock + t }

abbrev pub has_fired : Option ℕ → ℕ → Bool
has_fired none t = false
has_fired (some due) t = leb due t

module _ (lib : Parsers) (files : Files) where
  -- `newPeerWatcher` behind the first load.
  unfoldable pub watch_directory :
      Faults → ℕ → Result LoadError Watcher → Result StartError Watching × List WatchDeed
  watch_directory faults t (err e) = (err (not_loaded e), [])
  watch_directory faults t (ok w) =
      if faults.new_fails
      then (err no_watch, [])
      else if faults.add_fails
      then (err not_watched, opens_watch ∷ closes_watch ∷ [])
      else (
        ok (record { watcher = w; due = none; clock = t; refreshed = 0; reports = [] }),
        opens_watch ∷ [],
      )

  -- `newPeerWatcher` at a moment; the file is read `delay` after its `Stat`.
  unfoldable pub new_peer_watcher : Faults → ℕ → ℕ → Result StartError Watching × List WatchDeed
  unfolding watch_directory
  new_peer_watcher faults t delay =
      if faults.abs_fails
      then (err no_path, [])
      else watch_directory faults (t + delay)
          (new_watcher (stat_file_id files t) (load_peers_config lib (files.contents (t + delay))))

  -- A case that may reload, and the time when it is done.
  unfoldable pub reloads : Event → ℕ → Watching → Watching
  reloads e clock s =
      let (w, r) = run_event lib e s.watcher in
      record s { watcher = w; clock = clock; reports = s.reports ++ r }

  module _ (base_of : Bytes → Bytes) (base : Bytes) where
    -- One round of the loop of `Run`. A timer that is not set does not fire.
    unfoldable pub serve_happening : Happening → Watching → Watching × Option RunEnd
    serve_happening cancelled s = (s, some stopped)
    serve_happening events_closed s = (s, some watch_closed)
    serve_happening errors_closed s = (s, some watch_closed)
    serve_happening (file_event name replaced) s = (
      if bytes_beq (base_of name) base
          then record s {
            due = some (s.clock + reload_debounce);
            refreshed = if replaced then suc s.refreshed else s.refreshed;
          }
          else s,
      none,
    )
    serve_happening watch_failed s =
        (record s { due = some (s.clock + reload_debounce); refreshed = suc s.refreshed }, none)
    serve_happening (debounce_fired delay) s = (
      if has_fired s.due s.clock
          then reloads (debounced (stat_file_id files s.clock) (files.contents (s.clock + delay)))
              (s.clock + delay) (record s { due = none })
          else s,
      none,
    )
    serve_happening (rearm_ticked checking delay) s =
        let again = s.clock + checking in
        (
          reloads
              (rearmed (stat_file_id files s.clock) (stat_file_id files again)
                (files.contents (again + delay)))
              (again + delay) (record s { refreshed = suc s.refreshed }),
          none,
        )

    -- `Run`, on what happens, each so long after the loop was ready for it; `none` is still running.
    unfoldable pub run_watch : List (ℕ × Happening) → Watching → Watching × Option RunEnd
    run_watch [] s = (s, none)
    run_watch ((t, happening) ∷ later) s =
        resume (run_watch later) (serve_happening happening (wait t s))
