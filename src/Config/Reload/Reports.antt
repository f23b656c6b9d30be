-- ===== src/Config/Reload/Reports.antt =====
-- config.go, `peerWatcher`: what the reports of a run of the watcher tell of its reloads.
use gocloak.Base.{
  ◌≡◌, inl, inr, Bool, true, false, Bytes, List, [], ◌∷◌, ◌++◌, none, some, arith, Any, Result, ok,
  err, Bool-cases,
}
use gocloak.Config.Diff.Keys.{find, diff_peers-removed}
use gocloak.Config.Peers.{PeerConfig, PeersConfig, LoadError, load_peers_config}
use gocloak.Config.{Parsers}
use gocloak.Config.Reload.{
  ReloadResult, Watcher, Event, debounced, rearmed, FileId, reload_locked, run_event, run_events,
}

abbrev pub has_entry : Bytes → List PeerConfig → Bool
has_entry k ps = elim (find k ps) [ none ↦ false | some _ ↦ true ]

-- A report lists the peer of a key as removed.
abbrev pub Removes : Bytes → ReloadResult → Type 0
Removes k r = has_entry k r.diff.removed ≡ true

Any-append-left :
    (P : ReloadResult → Type 0) (xs ys : List ReloadResult) → Any P xs → Any P (xs ++ ys)
Any-append-left P [] ys h = absurd h
Any-append-left P (x ∷ xs) ys (inl h) = inl h
Any-append-left P (x ∷ xs) ys (inr h) = inr (Any-append-left P xs ys h)

Any-append-right :
    (P : ReloadResult → Type 0) (xs ys : List ReloadResult) → Any P ys → Any P (xs ++ ys)
Any-append-right P [] ys h = h
Any-append-right P (x ∷ xs) ys h = inr (Any-append-right P xs ys h)

reload_locked-removal :
    (k : Bytes) (id : FileId) (loaded : Result LoadError PeersConfig) (w : Watcher)
    → has_entry k w.cur.peers ≡ true
    → has_entry k (reload_locked id loaded w).0.cur.peers ≡ false
    → Removes k (reload_locked id loaded w).1
unfolding reload_locked
reload_locked-removal k id (err e) w h gone = ground arith
reload_locked-removal k id (ok cfg) w h gone =
    ground (arith, diff_peers-removed w.cur.peers cfg.peers k)

module _ (lib : Parsers) (k : Bytes) where
  run_event-removal :
      (e : Event) (w : Watcher)
      → has_entry k w.cur.peers ≡ true
      → has_entry k (run_event lib e w).0.cur.peers ≡ false
      → Any (Removes k) (run_event lib e w).1
  unfolding run_event
  run_event-removal (debounced id file) w h gone = inl (reload_locked-removal k id _ w h gone)
  run_event-removal (rearmed checked id file) w h gone =
      ground (arith, reload_locked-removal k id (load_peers_config lib file) w)

  -- No revocation is lost: whatever the events that the watcher serves, if a key is in the peer list that
  -- was in force before them and not in the one in force after them, some report among those handed to the
  -- callback lists the peer of this key as removed.
  pub no_removal_lost :
      (es : List Event) (w : Watcher)
      → has_entry k w.cur.peers ≡ true
      → has_entry k (run_events lib es w).0.cur.peers ≡ false
      → Any (Removes k) (run_events lib es w).1
  unfolding run_events
  no_removal_lost [] w h gone = absurd (ground arith)
  no_removal_lost (e ∷ es) w h gone =
      elim (Bool-cases (has_entry k (run_event lib e w).0.cur.peers)) [
        | inl still ↦
            Any-append-right (Removes k) (run_event lib e w).1 _
              (no_removal_lost es (run_event lib e w).0 still gone)
        | inr now ↦
            Any-append-left (Removes k) (run_event lib e w).1 _ (run_event-removal e w h now)
      ]
