-- ===== src/Config/Reload/InForce.antt =====
-- config.go, `peerWatcher`: what is in force is always one whole peers file.
use gocloak.Base.{
  ◌≡◌, refl, ap, sym, ◌∙◌, ◌⊎◌, ◌++◌, All, Any, Result, err, not, if-intro, List, [], ◌∷◌, Option,
  none, some, arith, ok, Result-cases, inl, inr,
}
use gocloak.Config.Peers.Loaded.{IsPeersConfig, check_peers_config-IsPeersConfig}
use gocloak.Config.Peers.{PeerYaml, PeersConfig, LoadError, load_peers_config}
use gocloak.Config.Reload.{
  file_id_beq, ReloadResult, Watcher, Event, debounced, rearmed, FileId, reload_locked, run_event,
  run_events, new_watcher,
}
use gocloak.Config.Yaml.{Documents, decode_strict}
use gocloak.Config.{Parsers}

-- The configuration is what the checks make of some decoded peers file.
abbrev pub IsLoaded : Parsers → PeersConfig → Type 0
IsLoaded lib c = (raw : List PeerYaml) × IsPeersConfig lib raw c

pub load_peers_config-IsLoaded :
    (lib : Parsers) (file : Option (Documents (List PeerYaml))) (c : PeersConfig)
    → load_peers_config lib file ≡ ok c
    → IsLoaded lib c
unfolding load_peers_config
load_peers_config-IsLoaded lib none c h = absurd (ground arith)
load_peers_config-IsLoaded lib (some docs) c h = elim (Result-cases (decode_strict docs)) [
  | inl (raw, e) ↦ (raw, check_peers_config-IsPeersConfig lib raw c (ground arith))
  | inr (x, e) ↦ absurd (ground arith)
]

-- The configuration is what the checks made of this very file.
abbrev pub IsOf : Parsers → Option (Documents (List PeerYaml)) → PeersConfig → Type 0
IsOf lib file c =
    (load_peers_config lib file ≡ ok c)
    × (docs : Documents (List PeerYaml)) × (raw : List PeerYaml) × (file ≡ some docs)
    × (decode_strict docs ≡ ok raw)
    × IsPeersConfig lib raw c

load_peers_config-IsOf :
    (lib : Parsers) (file : Option (Documents (List PeerYaml))) (c : PeersConfig)
    → load_peers_config lib file ≡ ok c
    → IsOf lib file c
unfolding load_peers_config
load_peers_config-IsOf lib none c h = absurd (ground arith)
load_peers_config-IsOf lib (some docs) c h = elim (Result-cases (decode_strict docs)) [
  | inl (raw, e) ↦
      (h, docs, raw, refl, e, check_peers_config-IsPeersConfig lib raw c (ground arith))
  | inr (x, e) ↦ absurd (ground arith)
]

-- The file that a reload at the event reads.
abbrev pub file_of : Event → Option (Documents (List PeerYaml))
file_of (debounced id file) = file
file_of (rearmed checked id file) = file

abbrev pub IsFailed : ReloadResult → Type 0
IsFailed r = (x : LoadError) × (r.error ≡ some x)

abbrev pub IsDone : ReloadResult → Type 0
IsDone r = r.error ≡ none

-- An event reloaded with success, every reload after it failed, and what is in force is of its file.
abbrev pub LastLoaded : Parsers → List Event → Watcher → Type 0
LastLoaded lib es w =
    (before : List Event) × (e : Event) × (after : List Event) × (es ≡ before ++ (e ∷ after))
    × Any IsDone (run_event lib e (run_events lib before w).0).1
    × All IsFailed (run_events lib after (run_event lib e (run_events lib before w).0).0).1
    × IsOf lib (file_of e) (run_events lib es w).0.cur

All-append :
    (xs ys : List ReloadResult) → All IsFailed xs → All IsFailed ys → All IsFailed (xs ++ ys)
All-append [] ys hx hy = hy
All-append (x ∷ xs) ys hx hy = (hx.0, All-append xs ys hx.1 hy)

-- What a round does to the configuration, and what it reports.
abbrev Changes :
    Parsers → Option (Documents (List PeerYaml)) → Watcher → Watcher × List ReloadResult → Type 0
Changes lib file w (w', reports) =
    (All IsFailed reports × (w'.cur ≡ w.cur))
    ⊎ (Any IsDone reports × (load_peers_config lib file ≡ ok w'.cur))

reload_locked-Changes :
    (lib : Parsers) (id : FileId) (file : Option (Documents (List PeerYaml))) (w : Watcher)
    (r : Result LoadError PeersConfig)
    → load_peers_config lib file ≡ r
    → Changes lib file w ((reload_locked id r w).0, (reload_locked id r w).1 ∷ [])
unfolding reload_locked
reload_locked-Changes lib id file w (err x) e = inl (((x, refl), tt), refl)
reload_locked-Changes lib id file w (ok c) e = inr (inl refl, e)

run_event-Changes :
    (lib : Parsers) (e : Event) (w : Watcher) → Changes lib (file_of e) w (run_event lib e w)
unfolding run_event
run_event-Changes lib (debounced id file) w =
    reload_locked-Changes lib id file w (load_peers_config lib file) refl
run_event-Changes lib (rearmed checked id file) w =
    if-intro (Changes lib file w) (not (file_id_beq checked w.seen))
      (λ moved. reload_locked-Changes lib id file w (load_peers_config lib file) refl)
      (λ same. inl (tt, refl))

run_events-LastLoaded :
    (lib : Parsers) (es : List Event) (w : Watcher)
    → (All IsFailed (run_events lib es w).1 × ((run_events lib es w).0.cur ≡ w.cur))
      ⊎ LastLoaded lib es w
unfolding run_events
run_events-LastLoaded lib [] w = inl (tt, refl)
run_events-LastLoaded lib (e ∷ es) w = elim (run_events-LastLoaded lib es (run_event lib e w).0) [
  | inr (before, d, after, splits, done, failed, is) ↦
      inr (e ∷ before, d, after, ap (λ (l : List Event). e ∷ l) splits, done, failed, is)
  | inl (failed, kept) ↦ elim (run_event-Changes lib e w) [
    | inl (first_failed, first_kept) ↦ inl (All-append _ _ first_failed failed, kept ∙ first_kept)
    | inr (done, is) ↦ inr (
      [],
      e,
      es,
      refl,
      done,
      failed,
      load_peers_config-IsOf lib (file_of e) _ (is ∙ ap ok (sym kept)),
    )
  ]
]

-- From a watcher that starts on a file that loads, whatever events it serves: the configuration in force is
-- the one that the checks made of the whole file of the last reload that reported success, after which
-- every reload reported an error; or, if every reload reported an error, of the file it started on.
pub run_events-InForce :
    (lib : Parsers) (id : FileId) (file : Option (Documents (List PeerYaml))) (w : Watcher)
    (es : List Event)
    → new_watcher id (load_peers_config lib file) ≡ ok w
    → (All IsFailed (run_events lib es w).1 × IsOf lib file (run_events lib es w).0.cur)
      ⊎ LastLoaded lib es w
unfolding new_watcher
run_events-InForce lib id file w es h = elim (Result-cases (load_peers_config lib file)) [
  | inr (x, e) ↦ absurd (ground arith)
  | inl (c, e) ↦
      let same : c ≡ w.cur = ground arith in
      elim (run_events-LastLoaded lib es w) [
        | inr last ↦ inr last
        | inl (failed, kept) ↦
            inl (failed, load_peers_config-IsOf lib file _ (e ∙ ap ok (same ∙ sym kept)))
      ]
]
