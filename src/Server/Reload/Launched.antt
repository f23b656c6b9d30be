-- ===== src/Server/Reload/Launched.antt =====
-- server.go, `Run`: what holds when the initial peer list is applied.
use gocloak.Base.{
  ℕ, ◌≡◌, ◌⊎◌, map, inl, inr, refl, Bool, true, false, ◌||◌, Bytes, bytes_eq, bytes_beq_iff, List,
  [], ◌∷◌, Option, arith, lookup, lookup-insert, contains, All, Result, ok, err, Result-cases,
  Option-cases,
}
use gocloak.Config.Peers.{PeerConfig}
use gocloak.Config.Reload.InForce.{IsLoaded}
use gocloak.Config.Reload.{Watcher}
use gocloak.Config.{Parsers}
use gocloak.Device.{Texts, Wireguard}
use gocloak.Limiter.{Limiter}
use gocloak.Secret.{SecretRef, SecretError, SecretResolver, Host, resolve_secret_ref}
use gocloak.Server.Apply.Simulated.{IsSpelt}
use gocloak.Server.Apply.Table.{Uapi, names_key, apply_peer-has_peer}
use gocloak.Server.Apply.{Cache, Applied, apply_peer, apply_resolved, resolve_secret, references}
use gocloak.Server.Refresh.{IsServer}
use gocloak.Server.Reload.Follows.{refresh_and_close-FollowsPeers, OnlyRefs, Follows}
use gocloak.Server.Reload.{Running, install_peers, launch, no_peers_yet, refresh_and_close}

module _ (h : Host) (external : Option SecretResolver) where
  resolve_secret-OnlyRefs :
      (refs : List SecretRef) (ref : SecretRef) (cache : Cache)
      → contains refs ref ≡ true
      → OnlyRefs refs cache
      → OnlyRefs refs (resolve_secret h external ref cache).0
  unfolding resolve_secret OnlyRefs
  resolve_secret-OnlyRefs refs ref cache here o other e = elim (Option-cases (lookup ref cache)) [
    | inr (value, f) ↦ ground (arith, o other e)
    | inl f ↦ elim (Result-cases (resolve_secret_ref h external ref)) [
      | inl (value, g) ↦
          ground (arith, o other e, lookup-insert ref other value cache, bytes_beq_iff ref other)
      | inr (x, g) ↦ ground (arith, o other e)
    ]
  ]

  module _ {W : Type 0} (texts : Texts) (dev : Wireguard W) where
    apply_peer-cache :
        (update_only : Bool) (p : PeerConfig) (a : Applied W)
        → (apply_peer texts dev h external update_only p a).cache
          ≡ (resolve_secret h external p.psk a.cache).0
    unfolding apply_peer apply_resolved
    apply_peer-cache update_only p a = split (resolve_secret h external p.psk a.cache)
      where
        split :
            (r : Cache × Result SecretError Bytes)
            → (apply_resolved texts dev h external p update_only r a).cache ≡ r.0
        split (cache, err x) = refl
        split (cache, ok psk) = refl

pub List-cases :
    {A : Type 0} (xs : List A) → (xs ≡ []) ⊎ ((x : A) × (rest : List A) × (xs ≡ x ∷ rest))
List-cases [] = inl refl
List-cases (x ∷ rest) = inr (x, rest, refl)

module _ {W : Type 0} (lib : Parsers) (texts : Texts) (dev : Wireguard W) (u : Uapi texts dev)
    (h : Host) (external : Option SecretResolver) (private_key : SecretRef) (k t : Bytes) where
  -- What the loop over the initial peers leaves when no peer fails.
  install_peers-installs :
      (refs : List SecretRef) (ps : List PeerConfig) (cache cache' : Cache) (w w' : W)
      → install_peers lib texts dev h external private_key ps cache w ≡ ok (cache', w')
      → All (λ (p : PeerConfig). contains refs p.psk ≡ true) ps
      → OnlyRefs refs cache
      → OnlyRefs refs cache' × (u.has_peer w' k ≡ (u.has_peer w k || names_key texts k ps))
  unfolding install_peers
  install_peers-installs refs [] cache cache' w w' e v o =
      let same : cache ≡ cache' = ground arith in
      let same_w : w ≡ w' = ground arith in (rw (← same) o, ground arith)
  install_peers-installs refs (p ∷ ps) cache cache' w w' e v o =
      let start : Applied W = record { cache = cache; tunnel = w; errors = [] } in
      let a = apply_peer texts dev h external false p start in
      elim (List-cases a.errors) [
        | inr (x, rest, failed) ↦ absurd (ground arith)
        | inl fine ↦
            let (only, later) =
              install_peers-installs refs ps a.cache cache' a.tunnel w' (ground arith) v.1 (
                rw (apply_peer-cache h external texts dev false p start)
                  (resolve_secret-OnlyRefs h external refs p.psk cache v.0 o)) in
            let (_, first) = apply_peer-has_peer texts dev u k h external false p start fine in
            (only, ground arith)
      ]

  references-All :
      (refs : List SecretRef) (ps : List PeerConfig)
      → ((r : SecretRef)
          → contains (map (λ (p : PeerConfig). p.psk) ps) r ≡ true
          → contains refs r ≡ true)
      → All (λ (p : PeerConfig). contains refs p.psk ≡ true) ps
  unfolding contains
  references-All refs [] v = tt
  references-All refs (p ∷ ps) v = (
    v p.psk (ground (arith, bytes_beq_iff p.psk p.psk)),
    references-All refs ps (λ r e. v r (ground arith)),
  )

  no_peers_yet-IsServer : (heap : ℕ → Limiter) → IsServer (no_peers_yet heap)
  unfolding lookup
  no_peers_yet-IsServer heap = record { made = λ ip l e. cc; one_address = λ ip ip' l e e'. cc }

  only_private_key :
      (ps : List PeerConfig) (value : Bytes)
      → OnlyRefs (references private_key ps) ((private_key, value) ∷ [])
  unfolding OnlyRefs contains lookup
  only_private_key ps value ref e = ground arith

  pub launch-Follows :
      (now : ℕ) (heap : ℕ → Limiter) (watcher : Watcher) (value : Bytes) (w : W) (s : Running W)
      → IsLoaded lib watcher.cur
      → All (IsSpelt texts k t) watcher.cur.peers
      → u.has_peer w k ≡ false
      → launch lib texts dev h external private_key now heap watcher ((private_key, value) ∷ []) w
        ≡ ok s
      → Follows lib texts dev u h external private_key k t s
  unfolding launch contains
  launch-Follows now heap watcher value w s loaded spelt none_yet e =
      let ps = watcher.cur.peers in
      elim (Result-cases
        (install_peers lib texts dev h external private_key ps ((private_key, value) ∷ []) w)) [
          | inr (x, f) ↦ absurd (ground arith)
          | inl ((cache', w'), f) ↦
              let (only, device) =
                install_peers-installs (references private_key ps) ps ((private_key, value) ∷ [])
                  cache' w w' f
                  (references-All (references private_key ps) ps (λ r e. ground arith))
                  (only_private_key ps value) in
              let server =
                refresh_and_close-FollowsPeers now ps (no_peers_yet heap)
                  (no_peers_yet-IsServer heap) in
              let at_watcher : s.watcher ≡ watcher = ground arith in
              let at_server : s.server ≡ (refresh_and_close now ps (no_peers_yet heap)).0 =
                ground arith in
              let at_cache : s.cache ≡ cache' = ground arith in
              record {
                loaded = rw at_watcher loaded;
                spelt = rw at_watcher spelt;
                server = rw (at_watcher, at_server) server;
                cache = rw (at_watcher, at_cache) only;
                device = λ fine. ground arith;
              }
        ]
