-- ===== src/Server/Reload/Follows.antt =====
-- server.go, `Run` and `handleReload`: everything that decides about access follows the peers file.
use gocloak.Base.{
  ℕ, ◌≡◌, refl, false, Bytes, bytes_eq, List, [], ◌∷◌, ◌++◌, Option, none, some, arith, lookup,
  contains, All, Any, Result, ok, err,
}
use gocloak.Config.Diff.Keys.{DistinctKeys}
use gocloak.Config.Diff.{diff_peers}
use gocloak.Config.Peers.Loaded.{DistinctKeys-AllApart}
use gocloak.Config.Peers.{PeerConfig, PeersConfig, LoadError}
use gocloak.Config.Reload.InForce.{IsLoaded}
use gocloak.Config.Reload.{FileId, reload_locked}
use gocloak.Config.{Parsers}
use gocloak.Device.{Texts, Wireguard}
use gocloak.Net.{Addr, unmap}
use gocloak.Secret.{SecretRef, SecretResolver, Host}
use gocloak.Server.Apply.Secrets.{prune_secret_cache_exact}
use gocloak.Server.Apply.Simulated.{IsSpelt, apply_diff-next}
use gocloak.Server.Apply.Table.{Uapi, names_key}
use gocloak.Server.Apply.{Cache, apply_diff, references}
use gocloak.Server.Holders.{IsHolder}
use gocloak.Server.Refresh.{IsServer}
use gocloak.Server.Reload.Limited.{
  at_address, is_some, refresh_and_close-IsServer, refresh_and_close-IsHolder,
  refresh_and_close-limiter_for,
}
use gocloak.Server.Reload.{Running, follow_reload, handle_reload, refresh_and_close}
use gocloak.Server.{Server, limiter_for}

-- The server's maps follow a list of peers: a limiter stands at an address exactly if an entry has the
-- address, and it is the limiter of that entry's key.
pub record FollowsPeers (peers : List PeerConfig) (s : Server) : Type 0 where
  pub is_server : IsServer s
  pub limited : (ip : Addr) → is_some (limiter_for s ip) ≡ at_address (unmap ip) peers
  pub held :
      (ip : Addr) (l : ℕ)
      → limiter_for s ip ≡ some l
      → Any (IsHolder (unmap ip) (s.heap l).public_key) peers

pub refresh_and_close-FollowsPeers :
    (now : ℕ) (ps : List PeerConfig) (s : Server)
    → IsServer s
    → FollowsPeers ps (refresh_and_close now ps s).0
refresh_and_close-FollowsPeers now ps s is = record {
  is_server = refresh_and_close-IsServer now ps s is;
  limited = refresh_and_close-limiter_for now ps s;
  held = λ ip l. refresh_and_close-IsHolder now ps s ip l is;
}

-- The cache holds a value for these references only.
unfoldable pub OnlyRefs : List SecretRef → Cache → Type 0
OnlyRefs refs cache = (ref : SecretRef) → contains refs ref ≡ false → lookup ref cache ≡ none

IsLoaded-DistinctKeys : (lib : Parsers) (c : PeersConfig) → IsLoaded lib c → DistinctKeys c.peers
IsLoaded-DistinctKeys lib c (raw, v) = DistinctKeys-AllApart c.peers v.apart

pub snoc-nil : {A : Type 0} (xs ys : List A) → (xs ++ ys) ≡ [] → (xs ≡ []) × (ys ≡ [])
snoc-nil [] ys h = (refl, h)
snoc-nil (x ∷ xs) ys h = absurd (ground arith)

module _ {W : Type 0} (lib : Parsers) (texts : Texts) (dev : Wireguard W) (u : Uapi texts dev)
    (h : Host) (external : Option SecretResolver) (private_key : SecretRef) (k t : Bytes) where
  -- The state follows the configuration that is in force.
  pub record Follows (s : Running W) : Type 0 where
    pub loaded : IsLoaded lib s.watcher.cur
    pub spelt : All (IsSpelt texts k t) s.watcher.cur.peers
    pub server : FollowsPeers s.watcher.cur.peers s.server
    pub cache : OnlyRefs (references private_key s.watcher.cur.peers) s.cache
    pub device : s.errors ≡ [] → u.has_peer s.tunnel k ≡ names_key texts k s.watcher.cur.peers

  follow_reload-Follows :
      (now : ℕ) (id : FileId) (c : PeersConfig) (s : Running W)
      → IsLoaded lib c
      → All (IsSpelt texts k t) c.peers
      → Follows s
      → let (watcher, r) = reload_locked id (ok c) s.watcher in
        Follows (
          follow_reload lib texts dev h external private_key now r (record s { watcher = watcher }))
  unfolding follow_reload reload_locked OnlyRefs
  follow_reload-Follows now id c s loaded spelt f =
      let a =
        apply_diff texts dev h external (diff_peers s.watcher.cur.peers c.peers) s.cache s.tunnel in
      record {
        loaded = loaded;
        spelt = spelt;
        server = refresh_and_close-FollowsPeers now c.peers s.server f.server.is_server;
        cache = λ ref e. ground (arith, prune_secret_cache_exact private_key c.peers a.cache ref);
        device = λ e.
            let (before, after) = snoc-nil s.errors a.errors e in
            apply_diff-next texts dev u h external s.watcher.cur.peers c.peers s.cache s.tunnel k t
              (IsLoaded-DistinctKeys lib s.watcher.cur f.loaded)
              (IsLoaded-DistinctKeys lib c loaded) f.spelt spelt (f.device before) after;
      }

  -- Whatever the load gives, the state follows the configuration that is then in force.
  pub handle_reload-Follows :
      (now : ℕ) (id : FileId) (loaded : Result LoadError PeersConfig) (s : Running W)
      → ((c : PeersConfig) → loaded ≡ ok c → IsLoaded lib c × All (IsSpelt texts k t) c.peers)
      → Follows s
      → let (watcher, r) = reload_locked id loaded s.watcher in
        Follows (
          handle_reload lib texts dev h external private_key now r (record s { watcher = watcher }))
  unfolding handle_reload reload_locked
  handle_reload-Follows now id (err e) s v f = record {
    loaded = f.loaded;
    spelt = f.spelt;
    server = f.server;
    cache = f.cache;
    device = f.device;
  }
  handle_reload-Follows now id (ok c) s v f =
      let (loaded, spelt) = v c refl in follow_reload-Follows now id c s loaded spelt f
