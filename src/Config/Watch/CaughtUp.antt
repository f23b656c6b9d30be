-- ===== src/Config/Watch/CaughtUp.antt =====
-- config.go, `peerWatcher.Run`: the configuration in force catches up with the file, also if the events of
-- the file system are lost.
use gocloak.Base.{
  ℕ, ◌≡◌, ◌≤◌, ◌+◌, refl, sym, ap, subst, ◌∙◌, true, Bytes, bytes_beq, List, [], ◌∷◌, Option, none,
  some, Result, ok, err, arith, Result-cases, Bool-cases, inl, inr, ◌⊎◌, if-intro,
}
use gocloak.Config.Peers.{PeersConfig, LoadError, load_peers_config}
use gocloak.Config.Reload.{
  FileId, Watcher, Event, debounced, rearmed, new_watcher, reload_locked, run_event, file_id_beq,
}
use gocloak.Config.Watch.{
  Files, stat_file_id, Happening, cancelled, file_event, watch_failed, events_closed, errors_closed,
  debounce_fired, rearm_ticked, Watching, RunEnd, Faults, new_peer_watcher, watch_directory,
  reloads, resume, serve_happening, wait, run_watch, has_fired,
}
use gocloak.Config.{Parsers}

-- The size and the time of the file tell of every change: what they come back to was never left, and the
-- file was the same all the while.
pub record ShowsChanges (files : Files) : Type 0 where
  pub kept :
      (a m n : ℕ)
      → a ≤ m
      → m ≤ n
      → stat_file_id files a ≡ stat_file_id files n
      → (stat_file_id files m ≡ stat_file_id files n) × (files.contents m ≡ files.contents n)

-- What the watcher has seen it saw at a moment, and the file it read then or later, if this one loads, is
-- the one in force.
record WasRead (lib : Parsers) (files : Files) (clock : ℕ) (w : Watcher) : Type 0 where
  stat_time : ℕ
  read_time : ℕ
  in_order : stat_time ≤ read_time
  past : read_time ≤ clock
  seen : w.seen ≡ stat_file_id files stat_time
  in_force : (c : PeersConfig) → load_peers_config lib (files.contents read_time) ≡ ok c → w.cur ≡ c

file_id_beq-eq : (a b : FileId) → file_id_beq a b ≡ true → a ≡ b
file_id_beq-eq a b h = ground arith

module _ (lib : Parsers) (files : Files) where
  later-WasRead :
      (t clock : ℕ) (w : Watcher) → t ≤ clock → WasRead lib files t w → WasRead lib files clock w
  later-WasRead t clock w h r = record {
    stat_time = r.stat_time;
    read_time = r.read_time;
    in_order = r.in_order;
    past = omega (arith, r.past);
    seen = r.seen;
    in_force = r.in_force;
  }

  reload_locked-cur :
      (id : FileId) (loaded : Result LoadError PeersConfig) (w : Watcher) (c : PeersConfig)
      → loaded ≡ ok c
      → (reload_locked id loaded w).0.cur ≡ c
  unfolding reload_locked
  reload_locked-cur id loaded w c e = rw e refl

  reload_locked-seen :
      (id : FileId) (loaded : Result LoadError PeersConfig) (w : Watcher)
      → (reload_locked id loaded w).0.seen ≡ id
  unfolding reload_locked
  reload_locked-seen id (ok c) w = refl
  reload_locked-seen id (err e) w = refl

  -- A reload that calls `Stat` and then reads.
  reload_locked-WasRead :
      (t delay : ℕ) (w : Watcher)
      → WasRead lib files
          (t + delay)
          (reload_locked
            (stat_file_id files t)
            (load_peers_config lib (files.contents (t + delay)))
            w).0
  reload_locked-WasRead t delay w = record {
    stat_time = t;
    read_time = t + delay;
    in_order = omega arith;
    past = omega arith;
    seen = reload_locked-seen _ _ w;
    in_force = λ c. reload_locked-cur _ _ w c;
  }

  abbrev IsRead : Watching → Type 0
  IsRead s = WasRead lib files s.clock s.watcher

  abbrev tick : ℕ → ℕ → ℕ → Event
  tick t checking delay =
      rearmed (stat_file_id files t) (stat_file_id files (t + checking))
        (files.contents ((t + checking) + delay))

  debounced-IsRead :
      (delay : ℕ) (s : Watching)
      → IsRead (
          reloads lib files
            (debounced (stat_file_id files s.clock) (files.contents (s.clock + delay)))
            (s.clock + delay)
            (record s { due = none }))
  unfolding reloads run_event
  debounced-IsRead delay s = reload_locked-WasRead s.clock delay s.watcher

  -- The tick reads again what does not look as it was seen.
  tick-WasRead :
      (t checking delay : ℕ) (w : Watcher)
      → WasRead lib files t w
      → let after = (run_event lib (tick t checking delay) w).0 in
        WasRead lib files ((t + checking) + delay) after
        × ((after.seen ≡ stat_file_id files t) ⊎ (after.seen ≡ stat_file_id files (t + checking)))
  unfolding run_event
  tick-WasRead t checking delay w r =
      elim (Bool-cases (file_id_beq (stat_file_id files t) w.seen)) [
        | inl same ↦ rw same (
          later-WasRead t ((t + checking) + delay) w (omega arith) r,
          inl (sym (file_id_beq-eq (stat_file_id files t) w.seen same)),
        )
        | inr other ↦
            rw other (reload_locked-WasRead (t + checking) delay w, inr (reload_locked-seen _ _ w))
      ]

  module _ (base_of : Bytes → Bytes) (base : Bytes) where
    abbrev serve : Happening → Watching → Watching × Option RunEnd
    serve = serve_happening lib files base_of base

    serve_happening-IsRead :
        (happening : Happening) (s : Watching) → IsRead s → IsRead (serve happening s).0
    unfolding serve_happening
    serve_happening-IsRead cancelled s r = r
    serve_happening-IsRead events_closed s r = r
    serve_happening-IsRead errors_closed s r = r
    serve_happening-IsRead watch_failed s r = r
    serve_happening-IsRead (file_event name replaced) s r =
        if-intro IsRead (bytes_beq (base_of name) base) (λ ours. r) (λ other. r)
    serve_happening-IsRead (debounce_fired delay) s r =
        if-intro IsRead (has_fired s.due s.clock) (λ fired. debounced-IsRead delay s) (λ not_set. r)
    serve_happening-IsRead (rearm_ticked checking delay) s r =
        unfold reloads in (tick-WasRead s.clock checking delay s.watcher r).0

    resumed :
        (later : List (ℕ × Happening)) (r : Watching × Option RunEnd)
        → IsRead r.0
        → IsRead (run_watch lib files base_of base later r.0).0
        → IsRead (resume (run_watch lib files base_of base later) r).0
    resumed later (s, none) now rest = rest
    resumed later (s, some e) now rest = now

    run_watch-IsRead :
        (later : List (ℕ × Happening)) (s : Watching)
        → IsRead s
        → IsRead (run_watch lib files base_of base later s).0
    unfolding run_watch
    run_watch-IsRead [] s r = r
    run_watch-IsRead ((t, happening) ∷ later) s r =
        let now =
          serve_happening-IsRead happening (wait t s)
            (later-WasRead s.clock (s.clock + t) s.watcher (omega arith) r) in
        resumed later (serve happening (wait t s)) now
          (run_watch-IsRead later (serve happening (wait t s)).0 now)

  new_peer_watcher-IsRead :
      (faults : Faults) (t delay : ℕ) (s : Watching)
      → (new_peer_watcher lib files faults t delay).0 ≡ ok s
      → IsRead s
  unfolding new_peer_watcher watch_directory new_watcher
  new_peer_watcher-IsRead faults t delay s e =
      elim (Result-cases (load_peers_config lib (files.contents (t + delay)))) [
        | inr (x, f) ↦ absurd (ground arith)
        | inl (c, f) ↦ record {
          stat_time = t;
          read_time = t + delay;
          in_order = omega arith;
          past = ground arith;
          seen = ground arith;
          in_force = λ d g. ground arith;
        }
      ]

  -- A file whose size and time tell of every change, and a watcher that starts and then runs, whatever
  -- happens. While the file is as it was when it was last seen, its configuration, if it loads, is the one
  -- in force.
  up_to_date :
      (clock n : ℕ) (w : Watcher) (c : PeersConfig)
      → ShowsChanges files
      → WasRead lib files clock w
      → clock ≤ n
      → w.seen ≡ stat_file_id files n
      → load_peers_config lib (files.contents n) ≡ ok c
      → w.cur ≡ c
  up_to_date clock n w c shows r late same loads =
      let r0 = r.in_order in
      let r1 = r.past in
      let at_read =
        shows.kept r.stat_time r.read_time n r.in_order (omega arith) (sym r.seen ∙ same) in
      r.in_force c (ap (load_peers_config lib) at_read.1 ∙ loads)

  module _ (base_of : Bytes → Bytes) (base : Bytes) where
    -- A peers file whose size and time tell of every change, and a watcher that starts and then runs, whatever
    -- happens and whichever events of the file system are lost. After a periodic tick, as long as the file
    -- is as it was at the tick, its configuration, if it loads, is the one in force.
    pub run_watch-catches_up :
        (faults : Faults) (start delay : ℕ) (s0 s1 : Watching) (later : List (ℕ × Happening))
        (t checking reading n : ℕ) (c : PeersConfig)
        → ShowsChanges files
        → (new_peer_watcher lib files faults start delay).0 ≡ ok s0
        → run_watch lib files base_of base later s0 ≡ (s1, none)
        → let (s2, _) =
            run_watch lib files base_of base ((t, rearm_ticked checking reading) ∷ []) s1 in
          s2.clock ≤ n
          → stat_file_id files n ≡ stat_file_id files (s1.clock + t)
          → load_peers_config lib (files.contents n) ≡ ok c
          → s2.watcher.cur ≡ c
    unfolding run_watch serve_happening reloads
    run_watch-catches_up faults start delay s0 s1 later t checking reading n c shows starts runs
          late same loads =
        let first = new_peer_watcher-IsRead faults start delay s0 starts in
        let ran : IsRead s1 =
          subst (λ (r : Watching × Option RunEnd). IsRead r.0) runs
            (run_watch-IsRead base_of base later s0 first) in
        let at_tick = s1.clock + t in
        let (read, seen) =
          tick-WasRead at_tick checking reading s1.watcher
            (later-WasRead s1.clock at_tick s1.watcher (omega arith) ran) in
        let again =
          shows.kept at_tick (at_tick + checking) n (omega arith) (omega arith) (sym same) in
        up_to_date ((at_tick + checking) + reading) n _ c shows read late
          (elim seen [ inl unchanged ↦ unchanged ∙ sym same | inr reread ↦ reread ∙ again.0 ]) loads
