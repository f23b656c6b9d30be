-- ===== src/Server/Reload.antt =====
-- server.go, `handleReload` and the first part of `Run`: the watcher, the server's maps, the cache of
-- secrets and the device together, from the start through a sequence of reloads. The watcher's
-- goroutine runs every reload, one after the other.
pub mod Limited
pub mod Follows
pub mod Launched
pub mod InForce
pub mod Routed
pub mod Identity
use gocloak.Base.{
  ℕ, Bool, true, false, Bytes, List, [], ◌∷◌, ◌++◌, Option, none, some, Result, ok, err, ◌>>=◌,
  bytes_eq,
}
use gocloak.Config.Peers.{PeerConfig}
use gocloak.Config.Reload.{Watcher, ReloadResult, Event, run_event}
use gocloak.Config.{Parsers}
use gocloak.Device.{Texts, Wireguard}
use gocloak.Limiter.{Limiter}
use gocloak.Secret.{SecretRef, SecretResolver, Host}
use gocloak.Server.Apply.{
  Cache, Applied, ApplyError, apply_peer, apply_diff, prune_secret_cache, references,
}
use gocloak.Server.{Server, refresh_peers, close_live}

-- What a reload reads and writes, with what it has reported: the errors of `applyDiff`, and the
-- connections that `refreshPeers` closed.
pub record Running (W : Type 0) : Type 0 where
  pub watcher : Watcher
  pub server : Server
  pub cache : Cache
  pub tunnel : W
  pub errors : List ApplyError
  pub closed : List ℕ

-- The last loop of `refreshPeers`.
unfoldable pub close_gone : List ℕ → Server → Server × List ℕ
close_gone [] s = (s, [])
close_gone (l ∷ ls) s =
    let (s1, conns) = close_live l s in let (s2, more) = close_gone ls s1 in (s2, conns ++ more)

-- The whole of `refreshPeers`: the server, and the connections it closes.
unfoldable pub refresh_and_close : ℕ → List PeerConfig → Server → Server × List ℕ
refresh_and_close now peers s = let (s', gone) = refresh_peers now peers s in close_gone gone s'

-- The maps that `NewServer` makes; no pointer is in use yet.
abbrev pub no_peers_yet : (ℕ → Limiter) → Server
no_peers_yet heap = record { peer_names = []; limiters = []; heap = heap; fresh = 0 }

module _ {W : Type 0} (lib : Parsers) (texts : Texts) (dev : Wireguard W) (h : Host)
    (external : Option SecretResolver) (private_key : SecretRef) where
  -- The loop of `Run` that applies the initial peers; the first that fails stops it.
  unfoldable pub install_peers : List PeerConfig → Cache → W → Result ApplyError (Cache × W)
  install_peers [] cache w = ok (cache, w)
  install_peers (p ∷ ps) cache w =
      let start : Applied W = record { cache = cache; tunnel = w; errors = [] } in
      let a = apply_peer texts dev h external false p start in
      elim a.errors [ [] ↦ install_peers ps a.cache a.tunnel | e ∷ _ ↦ err e ]

  -- `Run` from the new device up to the listener.
  unfoldable pub launch : ℕ → (ℕ → Limiter) → Watcher → Cache → W → Result ApplyError (Running W)
  launch now heap watcher cache w = do
    (cache', w') ← install_peers watcher.cur.peers cache w
    let (server, closed) = refresh_and_close now watcher.cur.peers (no_peers_yet heap)
    ok (record {
      watcher = watcher;
      server = server;
      cache = cache';
      tunnel = w';
      errors = [];
      closed = closed;
    })

  -- The part of `handleReload` behind its check of `r.Err`.
  unfoldable pub follow_reload : ℕ → ReloadResult → Running W → Running W
  follow_reload now r s =
      let peers = s.watcher.cur.peers in
      let (server, closed) = refresh_and_close now peers s.server in
      let a = apply_diff texts dev h external r.diff s.cache s.tunnel in
      record s {
        server = server;
        cache = prune_secret_cache (references private_key peers) a.cache;
        tunnel = a.tunnel;
        errors = s.errors ++ a.errors;
        closed = s.closed ++ closed;
      }

  -- `handleReload`
  unfoldable pub handle_reload : ℕ → ReloadResult → Running W → Running W
  handle_reload now r s = elim r.error [ some _ ↦ s | none ↦ follow_reload now r s ]

  unfoldable pub handle_reports : ℕ → List ReloadResult → Running W → Running W
  handle_reports now [] s = s
  handle_reports now (r ∷ rs) s = handle_reports now rs (handle_reload now r s)

  -- One round of the watcher's loop, with what `onReload` does.
  unfoldable pub serve_event : ℕ → Event → Running W → Running W
  serve_event now e s =
      let (watcher, reports) = run_event lib e s.watcher in
      handle_reports now reports (record s { watcher = watcher })

  unfoldable pub serve_events : List (ℕ × Event) → Running W → Running W
  serve_events [] s = s
  serve_events ((now, e) ∷ es) s = serve_events es (serve_event now e s)
