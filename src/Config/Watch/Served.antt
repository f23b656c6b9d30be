-- ===== src/Config/Watch/Served.antt =====
-- config.go, `peerWatcher.Run`: what the loop does is what its reloads do, and when it returns.
use gocloak.Base.{
  ℕ, ◌+◌, ◌≡◌, refl, sym, ap, ◌∙◌, true, false, Bytes, bytes_beq, List, [], ◌∷◌, ◌++◌, append-nil,
  append_assoc, Option, none, some, arith, Any, if-intro, subst, leb, Bool-cases, inl, inr,
}
use gocloak.Config.Reload.Reports.{has_entry, Removes, no_removal_lost}
use gocloak.Config.Reload.{Watcher, Event, run_event, run_events}
use gocloak.Config.Watch.{
  Files, Happening, cancelled, file_event, watch_failed, events_closed, errors_closed,
  debounce_fired, rearm_ticked, Watching, RunEnd, stopped, watch_closed, reloads, serve_happening,
  wait, resume, run_watch, has_fired, reload_debounce,
}
use gocloak.Config.{Parsers}

-- How the loop returns: by the first happening that ends it.
unfoldable pub first_end : List (ℕ × Happening) → Option RunEnd
first_end [] = none
first_end ((t, cancelled) ∷ later) = some stopped
first_end ((t, events_closed) ∷ later) = some watch_closed
first_end ((t, errors_closed) ∷ later) = some watch_closed
first_end ((t, file_event name replaced) ∷ later) = first_end later
first_end ((t, watch_failed) ∷ later) = first_end later
first_end ((t, debounce_fired delay) ∷ later) = first_end later
first_end ((t, rearm_ticked checking delay) ∷ later) = first_end later

module _ (lib : Parsers) where
  run_events-append :
      (es fs : List Event) (w : Watcher)
      → let (w1, r1) = run_events lib es w in
        let (w2, r2) = run_events lib fs w1 in run_events lib (es ++ fs) w ≡ (w2, r1 ++ r2)
  unfolding run_events
  run_events-append [] fs w = refl
  run_events-append (e ∷ es) fs w =
      let (w1, r1) = run_event lib e w in
      let (w2, r2) = run_events lib es w1 in
      let (w3, r3) = run_events lib fs w2 in
      ground (arith, run_events-append es fs w1, append_assoc r1 r2 r3)

  -- From one state of the loop to another the watcher served these events, and handed over their reports.
  record Serves (s s' : Watching) : Type 0 where
    events : List Event
    watcher : s'.watcher ≡ (run_events lib events s.watcher).0
    reports : s'.reports ≡ s.reports ++ (run_events lib events s.watcher).1

  Serves-idle : (s s' : Watching) → s'.watcher ≡ s.watcher → s'.reports ≡ s.reports → Serves s s'
  unfolding run_events
  Serves-idle s s' same reports = record {
    events = [];
    watcher = same;
    reports = reports ∙ sym (append-nil s.reports);
  }

  Serves-Serves : (s1 s2 s3 : Watching) → Serves s1 s2 → Serves s2 s3 → Serves s1 s3
  Serves-Serves s1 s2 s3 a b = record {
    events = a.events ++ b.events;
    watcher = ground (arith, run_events-append a.events b.events s1.watcher, a.watcher, b.watcher);
    reports = ground (
      arith,
      run_events-append a.events b.events s1.watcher,
      a.watcher,
      b.reports,
      a.reports,
      append_assoc s1.reports (run_events lib a.events s1.watcher).1
          (run_events lib b.events s2.watcher).1,
    );
  }

  module _ (files : Files) where
    reloads-Serves :
        (e : Event) (clock : ℕ) (s s' : Watching)
        → s'.watcher ≡ s.watcher
        → s'.reports ≡ s.reports
        → Serves s (reloads lib files e clock s')
    unfolding reloads run_events
    reloads-Serves e clock s s' same reports = record {
      events = e ∷ [];
      watcher = ap (λ (w : Watcher). (run_event lib e w).0) same;
      reports = ground (arith, append-nil (run_event lib e s.watcher).1);
    }

    module _ (base_of : Bytes → Bytes) (base : Bytes) where
      abbrev serve : Happening → Watching → Watching × Option RunEnd
      serve = serve_happening lib files base_of base

      serve_happening-Serves :
          (happening : Happening) (t : ℕ) (s : Watching) → Serves s (serve happening (wait t s)).0
      unfolding serve_happening
      serve_happening-Serves cancelled t s = Serves-idle s _ refl refl
      serve_happening-Serves events_closed t s = Serves-idle s _ refl refl
      serve_happening-Serves errors_closed t s = Serves-idle s _ refl refl
      serve_happening-Serves watch_failed t s = Serves-idle s _ refl refl
      serve_happening-Serves (file_event name replaced) t s =
          if-intro (Serves s) (bytes_beq (base_of name) base) (λ ours. Serves-idle s _ refl refl)
            (λ other. Serves-idle s _ refl refl)
      serve_happening-Serves (debounce_fired delay) t s =
          if-intro (Serves s) (has_fired s.due (s.clock + t))
            (λ fired. reloads-Serves _ _ s (record (wait t s) { due = none }) refl refl)
            (λ not_set. Serves-idle s _ refl refl)
      serve_happening-Serves (rearm_ticked checking delay) t s = reloads-Serves _ _ s _ refl refl

      resumed-Serves :
          (s : Watching) (later : List (ℕ × Happening)) (r : Watching × Option RunEnd)
          → Serves s r.0
          → Serves r.0 (run_watch lib files base_of base later r.0).0
          → Serves s (resume (run_watch lib files base_of base later) r).0
      resumed-Serves s later (s1, none) now rest = Serves-Serves s s1 _ now rest
      resumed-Serves s later (s1, some e) now rest = now

      run_watch-Serves :
          (later : List (ℕ × Happening)) (s : Watching)
          → Serves s (run_watch lib files base_of base later s).0
      unfolding run_watch
      run_watch-Serves [] s = Serves-idle s s refl refl
      run_watch-Serves ((t, happening) ∷ later) s =
          let r = serve happening (wait t s) in
          resumed-Serves s later r (serve_happening-Serves happening t s)
            (run_watch-Serves later r.0)

      -- `Run` returns by the first of the happenings that end it: with nil if the context is done, and with an
      -- error if the watch is closed.
      run_watch-first_end :
          (later : List (ℕ × Happening)) (s : Watching)
          → (run_watch lib files base_of base later s).1 ≡ first_end later
      unfolding run_watch serve_happening first_end
      run_watch-first_end [] s = refl
      run_watch-first_end ((t, cancelled) ∷ later) s = refl
      run_watch-first_end ((t, events_closed) ∷ later) s = refl
      run_watch-first_end ((t, errors_closed) ∷ later) s = refl
      run_watch-first_end ((t, file_event name replaced) ∷ later) s = run_watch-first_end later _
      run_watch-first_end ((t, watch_failed) ∷ later) s = run_watch-first_end later _
      run_watch-first_end ((t, debounce_fired delay) ∷ later) s = run_watch-first_end later _
      run_watch-first_end ((t, rearm_ticked checking delay) ∷ later) s = run_watch-first_end later _

      -- However the events of the file system, the timers and the ends of a run of the watcher come, `Run`
      -- returns by the first happening that ends it, with nil if the context is done and an error if the watch is
      -- closed. And if a key is in the peer list that was in force at the beginning and not in the one in force at
      -- the end, some report handed over meanwhile lists the peer of this key as removed.
      pub run_watch-no_removal_lost :
          (later : List (ℕ × Happening)) (s : Watching) (k : Bytes)
          → s.reports ≡ []
          → let (s', end) = run_watch lib files base_of base later s in
            (end ≡ first_end later)
            × (has_entry k s.watcher.cur.peers ≡ true
                → has_entry k s'.watcher.cur.peers ≡ false
                → Any (Removes k) s'.reports)
      run_watch-no_removal_lost later s k none_yet =
          let v = run_watch-Serves later s in
          (
            run_watch-first_end later s,
            λ h gone.
                let told =
                  no_removal_lost lib k v.events s.watcher h
                    (ap (λ (w : Watcher). has_entry k w.cur.peers) (sym v.watcher) ∙ gone) in
                let same : (run_watch lib files base_of base later s).0.reports
                    ≡ (run_events lib v.events s.watcher).1 =
                  ground (arith, v.reports) in
                subst (Any (Removes k)) (sym same) told,
          )

      -- An event for the file, or an error of the watch, sets the timer, and it stays set until it fires.
      due-kept :
          (happening : Happening) (s : Watching) (d : ℕ)
          → s.due ≡ some d
          → ((delay : ℕ) → happening ≡ debounce_fired delay → leb d s.clock ≡ false)
          → (d' : ℕ) × ((serve happening s).0.due ≡ some d')
      unfolding serve_happening reloads
      due-kept cancelled s d e h = (d, e)
      due-kept events_closed s d e h = (d, e)
      due-kept errors_closed s d e h = (d, e)
      due-kept watch_failed s d e h = (s.clock + reload_debounce, refl)
      due-kept (file_event name replaced) s d e h =
          elim (Bool-cases (bytes_beq (base_of name) base)) [
            | inl ours ↦ (s.clock + reload_debounce, ground arith)
            | inr other ↦ (d, ground arith)
          ]
      due-kept (debounce_fired delay) s d e h = (d, ground (arith, h delay refl))
      due-kept (rearm_ticked checking delay) s d e h = (d, e)
