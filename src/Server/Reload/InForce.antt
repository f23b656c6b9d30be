-- ===== src/Server/Reload/InForce.antt =====
-- server.go, `Run` and `handleReload`: from the start through every sequence of reloads.
use gocloak.Base.{
  ℕ, ◌≡◌, ◌↔◌, Bool, true, false, not, Bytes, List, [], ◌∷◌, Option, some, arith, All, Any, ok,
  Result-cases, if◌then◌else◌, inl, inr,
}
use gocloak.Config.Peers.Loaded.{Lists, resolve-IsPeersConfig}
use gocloak.Config.Peers.{PeerYaml, PeersConfig, load_peers_config}
use gocloak.Config.Reload.InForce.{load_peers_config-IsLoaded}
use gocloak.Config.Reload.{
  FileId, Watcher, Event, debounced, rearmed, new_watcher, reload_locked, run_event, ReloadResult,
  file_id_beq,
}
use gocloak.Config.Yaml.{Documents}
use gocloak.Config.{Parsers}
use gocloak.Device.{Texts, Wireguard}
use gocloak.Limiter.{Limiter}
use gocloak.Net.{Addr, AddrPort}
use gocloak.Policy.{resolve}
use gocloak.Secret.{SecretRef, SecretResolver, Host}
use gocloak.Server.Apply.Simulated.{IsSpelt}
use gocloak.Server.Apply.Table.{Uapi}
use gocloak.Server.Reload.Follows.{Follows, handle_reload-Follows}
use gocloak.Server.Reload.Launched.{launch-Follows}
use gocloak.Server.Reload.{Running, launch, handle_reports, serve_event, serve_events}

-- If the file loads, it spells the key `k` of the device as `t`.
abbrev pub SpeltFile : Parsers → Texts → Bytes → Bytes → Option (Documents (List PeerYaml)) → Type 0
SpeltFile lib texts k t file =
    (c : PeersConfig) → load_peers_config lib file ≡ ok c → All (IsSpelt texts k t) c.peers

-- The same of the file that the event's reload finds.
abbrev pub SpeltEvent : Parsers → Texts → Bytes → Bytes → ℕ × Event → Type 0
SpeltEvent lib texts k t (now, debounced id file) = SpeltFile lib texts k t file
SpeltEvent lib texts k t (now, rearmed checked id file) = SpeltFile lib texts k t file

module _ {W : Type 0} (lib : Parsers) (texts : Texts) (dev : Wireguard W) (u : Uapi texts dev)
    (h : Host) (external : Option SecretResolver) (private_key : SecretRef) (k t : Bytes) where
  abbrev Keeps : Running W → Type 0
  Keeps s = Follows lib texts dev u h external private_key k t s

  if-Keeps :
      (now : ℕ) (s : Running W) (b : Bool) (x y : Watcher × List ReloadResult)
      → Keeps
          (handle_reports lib texts dev h external private_key now x.1 (record s { watcher = x.0 }))
      → Keeps
          (handle_reports lib texts dev h external private_key now y.1 (record s { watcher = y.0 }))
      → let z = if b then x else y in
        Keeps
          (handle_reports lib texts dev h external private_key now z.1 (record s { watcher = z.0 }))
  if-Keeps now s true x y kx ky = kx
  if-Keeps now s false x y kx ky = ky

  pub serve_event-Follows :
      (now : ℕ) (e : Event) (s : Running W)
      → SpeltEvent lib texts k t (now, e)
      → Keeps s
      → Keeps (serve_event lib texts dev h external private_key now e s)
  unfolding serve_event run_event handle_reports
  serve_event-Follows now (debounced id file) s v f =
      handle_reload-Follows lib texts dev u h external private_key k t now id
        (load_peers_config lib file) s (λ c e. (load_peers_config-IsLoaded lib file c e, v c e)) f
  serve_event-Follows now (rearmed checked id file) s v f =
      let (w, r) = reload_locked id (load_peers_config lib file) s.watcher in
      if-Keeps now s (not (file_id_beq checked s.watcher.seen)) (w, r ∷ []) (s.watcher, [])
        (handle_reload-Follows lib texts dev u h external private_key k t now id
          (load_peers_config lib file) s (λ c e. (load_peers_config-IsLoaded lib file c e, v c e))
          f)
        f

  serve_events-Follows :
      (es : List (ℕ × Event)) (s : Running W)
      → All (SpeltEvent lib texts k t) es
      → Keeps s
      → Keeps (serve_events lib texts dev h external private_key es s)
  unfolding serve_events
  serve_events-Follows [] s v f = f
  serve_events-Follows ((now, e) ∷ es) s v f =
      serve_events-Follows es (serve_event lib texts dev h external private_key now e s) v.1
        (serve_event-Follows now e s v.0 f)

  -- A server that starts on a peers file that loads, with a new device that has no peer under the key `k`
  -- and keeps to its documented interface, and that then serves any sequence of reloads, whether they load
  -- or fail. Then the policy in force grants a service at a backend to an address exactly if the peer list
  -- in force does; the limiters stand exactly at its addresses, each with the key of an entry there, and the
  -- cache holds values only for its references and the server's own; and, if no step on the device has
  -- reported an error, the device has a peer under `k` exactly if the list has it. Every file that loads
  -- spells the entries with the key `k` alike.
  pub serve_events-Follows-launch :
      (now : ℕ) (heap : ℕ → Limiter) (id : FileId) (file : Option (Documents (List PeerYaml)))
      (watcher : Watcher) (value : Bytes) (w : W) (s : Running W) (es : List (ℕ × Event))
      → new_watcher id (load_peers_config lib file) ≡ ok watcher
      → SpeltFile lib texts k t file
      → u.has_peer w k ≡ false
      → launch lib texts dev h external private_key now heap watcher ((private_key, value) ∷ []) w
        ≡ ok s
      → All (SpeltEvent lib texts k t) es
      → let s' = serve_events lib texts dev h external private_key es s in
        ((ip : Addr) (service : Bytes) (backend : AddrPort)
          → (resolve s'.watcher.cur.policy ip service ≡ some backend)
            ↔ Any (Lists ip service backend) s'.watcher.cur.peers)
        × Follows lib texts dev u h external private_key k t s'
  unfolding new_watcher
  serve_events-Follows-launch now heap id file watcher value w s es loads spelt none_yet starts v =
      elim (Result-cases (load_peers_config lib file)) [
        | inr (x, e) ↦ absurd (ground arith)
        | inl (c, e) ↦
            let same : c ≡ watcher.cur = ground arith in
            let first =
              launch-Follows lib texts dev u h external private_key k t now heap watcher value w s
                (rw (← same) (load_peers_config-IsLoaded lib file c e)) (rw (← same) (spelt c e))
                none_yet starts in
            let last = serve_events-Follows es s v first in
            let (raw, valid) = last.loaded in
            ((λ ip service backend. resolve-IsPeersConfig lib raw _ ip service backend valid), last)
      ]
