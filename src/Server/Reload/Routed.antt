-- ===== src/Server/Reload/Routed.antt =====
-- server.go, `Run` and `handleReload`: the device's routes follow the peers file in force.
use gocloak.Base.{
  ℕ, ◌≡◌, refl, sym, ◌∙◌, Bool, true, false, not, ◌⊎◌, inl, inr, Bytes, List, [], ◌∷◌, Option,
  arith, All, Result, ok, err, Result-cases, Bool-cases, if◌then◌else◌,
}
use gocloak.Config.Diff.{diff_peers}
use gocloak.Config.Peers.Loaded.{AllApart}
use gocloak.Config.Peers.{PeerConfig, PeersConfig, LoadError, load_peers_config}
use gocloak.Config.Reload.InForce.{IsLoaded, load_peers_config-IsLoaded}
use gocloak.Config.Reload.{
  FileId, Watcher, Event, debounced, rearmed, reload_locked, run_event, ReloadResult, file_id_beq,
}
use gocloak.Config.{Parsers}
use gocloak.Device.{Texts, Wireguard}
use gocloak.Limiter.{Limiter}
use gocloak.Net.{Addr}
use gocloak.Secret.{SecretRef, SecretResolver, Host}
use gocloak.Server.Apply.Routes.Followed.{apply_peer-routed, apply_diff-routed}
use gocloak.Server.Apply.Routes.{Cryptokey, routes, Agrees, All-Agrees}
use gocloak.Server.Apply.Simulated.{IsSpelt}
use gocloak.Server.Apply.Table.{Uapi, has_hex, names_key}
use gocloak.Server.Apply.{Cache, Applied, apply_peer, apply_diff}
use gocloak.Server.Reload.Follows.{Follows, snoc-nil}
use gocloak.Server.Reload.InForce.{SpeltEvent, serve_event-Follows}
use gocloak.Server.Reload.Launched.{List-cases}
use gocloak.Server.Reload.{
  Running, install_peers, launch, follow_reload, handle_reload, handle_reports, serve_event,
  serve_events,
}

routes-absent :
    (texts : Texts) (k : Bytes) (ip : Addr) (ps : List PeerConfig)
    → names_key texts k ps ≡ false
    → routes texts k ip ps ≡ false
routes-absent texts k ip [] h = refl
routes-absent texts k ip (p ∷ ps) h = ground (arith, routes-absent texts k ip ps)

module _ {W : Type 0} (lib : Parsers) (texts : Texts) (dev : Wireguard W) (u : Uapi texts dev)
    (c : Cryptokey texts dev u) (h : Host) (external : Option SecretResolver)
    (private_key : SecretRef) (k t : Bytes) (ip : Addr) where
  install_peers-routed :
      (ps : List PeerConfig) (cache cache' : Cache) (w w' : W) (b : Bool)
      → install_peers lib texts dev h external private_key ps cache w ≡ ok (cache', w')
      → All (Agrees texts k ip b) ps
      → (c.routed w ip k ≡ b) ⊎ (names_key texts k ps ≡ true)
      → c.routed w' ip k ≡ b
  unfolding install_peers
  install_peers-routed [] cache cache' w w' b e v (inl before) =
      let same_w : w ≡ w' = ground arith in rw (← same_w) before
  install_peers-routed [] cache cache' w w' b e v (inr named) = absurd (ground arith)
  install_peers-routed (p ∷ ps) cache cache' w w' b e (v, vs) before =
      let start : Applied W = record { cache = cache; tunnel = w; errors = [] } in
      let a = apply_peer texts dev h external false p start in
      elim (List-cases a.errors) [
        | inr (x, rest, failed) ↦ absurd (ground arith)
        | inl fine ↦
            let first =
              apply_peer-routed texts dev u c k ip h external false p start b v (λ only _. cc) in
            let later = install_peers-routed ps a.cache cache' a.tunnel w' b (ground arith) vs in
            elim (Bool-cases (has_hex texts k p)) [
              | inl mine ↦ later (inl (first (inr mine) fine))
              | inr other ↦ elim before [
                | inl was ↦ later (inl (first (inl was) fine))
                | inr named ↦ later (inr (ground arith))
              ]
            ]
      ]

  -- The route from `ip` to `k` is the one of the list in force, as long as the device reports no error.
  abbrev pub IsRouted : Running W → Type 0
  IsRouted s = s.errors ≡ [] → c.routed s.tunnel ip k ≡ routes texts k ip s.watcher.cur.peers

  abbrev pub Keeps : Running W → Type 0
  Keeps s = Follows lib texts dev u h external private_key k t s

  handle_reload-IsRouted :
      (now : ℕ) (id : FileId) (loaded : Result LoadError PeersConfig) (s : Running W)
      → ((d : PeersConfig) → loaded ≡ ok d → IsLoaded lib d × All (IsSpelt texts k t) d.peers)
      → Keeps s
      → IsRouted s
      → let (watcher, r) = reload_locked id loaded s.watcher in
        IsRouted (
          handle_reload lib texts dev h external private_key now r (record s { watcher = watcher }))
  unfolding handle_reload follow_reload reload_locked
  handle_reload-IsRouted now id (err e) s v f r = r
  handle_reload-IsRouted now id (ok d) s v f r = λ fine.
      let a =
        apply_diff texts dev h external (diff_peers s.watcher.cur.peers d.peers) s.cache s.tunnel in
      let (before, after) = snoc-nil s.errors a.errors fine in
      let (loaded, spelt) = v d refl in
      apply_diff-routed texts dev u c h external s.watcher.cur.peers d.peers s.cache s.tunnel k t ip
        f.loaded.1.apart loaded.1.apart f.spelt spelt (f.device before) (r before) after

  if-IsRouted :
      (now : ℕ) (s : Running W) (b : Bool) (x y : Watcher × List ReloadResult)
      → IsRouted
          (handle_reports lib texts dev h external private_key now x.1 (record s { watcher = x.0 }))
      → IsRouted
          (handle_reports lib texts dev h external private_key now y.1 (record s { watcher = y.0 }))
      → let z = if b then x else y in
        IsRouted
          (handle_reports lib texts dev h external private_key now z.1 (record s { watcher = z.0 }))
  if-IsRouted now s true x y kx ky = kx
  if-IsRouted now s false x y kx ky = ky

  serve_event-IsRouted :
      (now : ℕ) (e : Event) (s : Running W)
      → SpeltEvent lib texts k t (now, e)
      → Keeps s
      → IsRouted s
      → IsRouted (serve_event lib texts dev h external private_key now e s)
  unfolding serve_event run_event handle_reports
  serve_event-IsRouted now (debounced id file) s v f r =
      handle_reload-IsRouted now id (load_peers_config lib file) s
        (λ c e. (load_peers_config-IsLoaded lib file c e, v c e)) f r
  serve_event-IsRouted now (rearmed checked id file) s v f r =
      let (w, result) = reload_locked id (load_peers_config lib file) s.watcher in
      if-IsRouted now s (not (file_id_beq checked s.watcher.seen)) (w, result ∷ []) (s.watcher, [])
        (handle_reload-IsRouted now id (load_peers_config lib file) s
          (λ c e. (load_peers_config-IsLoaded lib file c e, v c e)) f r)
        r

  pub serve_events-IsRouted :
      (es : List (ℕ × Event)) (s : Running W)
      → All (SpeltEvent lib texts k t) es
      → Keeps s
      → IsRouted s
      → let s' = serve_events lib texts dev h external private_key es s in Keeps s' × IsRouted s'
  unfolding serve_events
  serve_events-IsRouted [] s v f r = (f, r)
  serve_events-IsRouted ((now, e) ∷ es) s v f r =
      serve_events-IsRouted es (serve_event lib texts dev h external private_key now e s) v.1
        (serve_event-Follows lib texts dev u h external private_key k t now e s v.0 f)
        (serve_event-IsRouted now e s v.0 f r)

  pub launch-IsRouted :
      (now : ℕ) (heap : ℕ → Limiter) (watcher : Watcher) (cache : Cache) (w : W) (s : Running W)
      → AllApart watcher.cur.peers
      → All (IsSpelt texts k t) watcher.cur.peers
      → c.routed w ip k ≡ false
      → launch lib texts dev h external private_key now heap watcher cache w ≡ ok s
      → IsRouted s
  unfolding launch
  launch-IsRouted now heap watcher cache w s apart spelt none_yet e =
      let ps = watcher.cur.peers in
      elim (Result-cases (install_peers lib texts dev h external private_key ps cache w)) [
        | inr (x, f) ↦ absurd (ground arith)
        | inl ((cache', w'), f) ↦
            let before : ((c.routed w ip k ≡ routes texts k ip ps)
                ⊎ (names_key texts k ps ≡ true)) =
              elim (Bool-cases (names_key texts k ps)) [
                | inl named ↦ inr named
                | inr absent ↦ inl (none_yet ∙ sym (routes-absent texts k ip ps absent))
              ] in
            let device =
              install_peers-routed ps cache cache' w w' (routes texts k ip ps) f
                (All-Agrees texts k t ip ps spelt apart) before in
            λ _. ground arith
      ]
