-- ===== src/Server/Reload/Identity.antt =====
-- server.go, `Run` and `handleReload`: a peer reaches what its entry lists, from its own address only.
use gocloak.Base.{
  ℕ, ◌≡◌, ◌↔◌, sym, ◌∙◌, true, false, inl, inr, Bytes, List, [], ◌∷◌, Option, some, arith, All, Any,
  ok, Result-cases, Bool-cases,
}
use gocloak.Config.Peers.Loaded.{Apart, AllApart, Lists, resolve-IsPeersConfig}
use gocloak.Config.Peers.{PeerConfig, PeerYaml, load_peers_config}
use gocloak.Config.Reload.InForce.{IsLoaded, load_peers_config-IsLoaded}
use gocloak.Config.Reload.{FileId, Watcher, Event, new_watcher}
use gocloak.Config.Yaml.{Documents}
use gocloak.Config.{Parsers}
use gocloak.Device.{Texts, Wireguard}
use gocloak.Limiter.{Limiter}
use gocloak.Net.{Addr, AddrPort, unmap, addr_beq, addr_beq_iff}
use gocloak.Policy.{resolve}
use gocloak.Secret.{SecretRef, SecretResolver, Host}
use gocloak.Server.Apply.Routes.{Cryptokey, routes, routes-Apart}
use gocloak.Server.Apply.Simulated.{IsSpelt}
use gocloak.Server.Apply.Table.{Uapi, has_hex}
use gocloak.Server.Reload.InForce.{SpeltFile, SpeltEvent}
use gocloak.Server.Reload.Launched.{launch-Follows}
use gocloak.Server.Reload.Routed.{serve_events-IsRouted, launch-IsRouted}
use gocloak.Server.Reload.{Running, launch, serve_events}

not_both : true ≡ false → ⊥
not_both h = cc

-- The entry of the key `k` has the address and lists the service with this backend.
abbrev pub GrantedTo : Texts → Bytes → Addr → Bytes → AddrPort → PeerConfig → Type 0
GrantedTo texts k ip service backend p = (has_hex texts k p ≡ true) × Lists ip service backend p

module _ (texts : Texts) (k t : Bytes) (ip : Addr) (service : Bytes) (backend : AddrPort) where
  -- The address of an entry that lists the service is the one of `k`, so that the entry is the one of `k`.
  GrantedTo-routed :
      (ps : List PeerConfig)
      → AllApart ps
      → routes texts k (unmap ip) ps ≡ true
      → Any (Lists ip service backend) ps
      → Any (GrantedTo texts k ip service backend) ps
  GrantedTo-routed [] a r l = l
  GrantedTo-routed (p ∷ ps) (a, apart) r (inr later) = elim (Bool-cases (has_hex texts k p)) [
    | inr other ↦ inr (GrantedTo-routed ps apart (ground arith) later)
    | inl mine ↦
        let here : addr_beq p.tunnel_ip (unmap ip) ≡ true = ground arith in
        absurd (not-Lists p ps a ((addr_beq_iff p.tunnel_ip (unmap ip)).0 here) later)
  ]
    where
      not-Lists :
          (p : PeerConfig) (ps : List PeerConfig)
          → All (Apart p) ps
          → p.tunnel_ip ≡ unmap ip
          → Any (Lists ip service backend) ps
          → ⊥
      not-Lists p [] a here l = l
      not-Lists p (q ∷ ps) a here (inl l) = a.0.ips (here ∙ sym l.0)
      not-Lists p (q ∷ ps) a here (inr l) = not-Lists p ps a.1 here l
  GrantedTo-routed (p ∷ ps) (a, apart) r (inl l) = elim (Bool-cases (has_hex texts k p)) [
    | inl mine ↦ inl (mine, l)
    | inr other ↦ absurd (
        not_both (
          sym ((addr_beq_iff p.tunnel_ip (unmap ip)).1 l.0)
          ∙ routes-Apart texts k t (unmap ip) p ps a (ground arith)))
  ]

  routed-GrantedTo :
      (ps : List PeerConfig)
      → AllApart ps
      → All (IsSpelt texts k t) ps
      → Any (GrantedTo texts k ip service backend) ps
      → (routes texts k (unmap ip) ps ≡ true) × Any (Lists ip service backend) ps
  routed-GrantedTo [] a s g = absurd g
  routed-GrantedTo (p ∷ ps) a s (inl (mine, l)) =
      (ground (arith, addr_beq_iff p.tunnel_ip (unmap ip)), inl l)
  routed-GrantedTo (p ∷ ps) (a, apart) (s, ss) (inr g) =
      let (r, l) = routed-GrantedTo ps apart ss g in
      elim (Bool-cases (has_hex texts k p)) [
        | inr other ↦ (ground arith, inr l)
        | inl mine ↦ absurd (not-GrantedTo ps mine a ss g)
      ]
    where
      not-GrantedTo :
          (qs : List PeerConfig)
          → has_hex texts k p ≡ true
          → All (Apart p) qs
          → All (IsSpelt texts k t) qs
          → Any (GrantedTo texts k ip service backend) qs
          → ⊥
      not-GrantedTo [] mine a ss g = g
      not-GrantedTo (q ∷ qs) mine a ss (inl g) = a.0.keys (s mine ∙ sym (ss.0 g.0))
      not-GrantedTo (q ∷ qs) mine a ss (inr g) = not-GrantedTo qs mine a.1 ss.1 g

module _ {W : Type 0} (lib : Parsers) (texts : Texts) (dev : Wireguard W) (u : Uapi texts dev)
    (c : Cryptokey texts dev u) (h : Host) (external : Option SecretResolver)
    (private_key : SecretRef) (k t : Bytes) where
  -- A server that starts on a peers file that loads, with a new device that has no peer under the key `k`
  -- and no route to it and keeps to its documented interface, and that then serves any sequence of reloads,
  -- whether they load or fail, without an error of the device. Then an address gets a service at a backend
  -- from the policy in force, and packets from this address are taken from the peer `k`, exactly if the
  -- peer list in force has an entry with the key `k` and this address that lists the service with this
  -- backend. Every file that loads spells the entries with the key `k` alike.
  pub serve_events-identity :
      (now : ℕ) (heap : ℕ → Limiter) (id : FileId) (file : Option (Documents (List PeerYaml)))
      (watcher : Watcher) (value : Bytes) (w : W) (s : Running W) (es : List (ℕ × Event))
      (ip : Addr) (service : Bytes) (backend : AddrPort)
      → new_watcher id (load_peers_config lib file) ≡ ok watcher
      → SpeltFile lib texts k t file
      → u.has_peer w k ≡ false
      → c.routed w (unmap ip) k ≡ false
      → launch lib texts dev h external private_key now heap watcher ((private_key, value) ∷ []) w
        ≡ ok s
      → All (SpeltEvent lib texts k t) es
      → let s' = serve_events lib texts dev h external private_key es s in
        s'.errors ≡ []
        → ((resolve s'.watcher.cur.policy ip service ≡ some backend)
            × (c.routed s'.tunnel (unmap ip) k ≡ true))
          ↔ Any (GrantedTo texts k ip service backend) s'.watcher.cur.peers
  unfolding new_watcher
  serve_events-identity now heap id file watcher value w s es ip service backend loads spelt no_peer
        no_route starts v fine =
      elim (Result-cases (load_peers_config lib file)) [
        | inr (x, e) ↦ absurd (ground arith)
        | inl (d, e) ↦
            let same : d ≡ watcher.cur = ground arith in
            let loaded : IsLoaded lib watcher.cur =
              rw (← same) (load_peers_config-IsLoaded lib file d e) in
            let spelt_first : All (IsSpelt texts k t) watcher.cur.peers = rw (← same) (spelt d e) in
            let first =
              launch-Follows lib texts dev u h external private_key k t now heap watcher value w s
                loaded spelt_first no_peer starts in
            let first_route =
              launch-IsRouted lib texts dev u c h external private_key k t (unmap ip) now heap
                watcher ((private_key, value) ∷ []) w s loaded.1.apart spelt_first no_route
                starts in
            let (last, route) =
              serve_events-IsRouted lib texts dev u c h external private_key k t (unmap ip) es s v
                first first_route in
            let (raw, valid) = last.loaded in
            let policy = resolve-IsPeersConfig lib raw _ ip service backend valid in
            let routed = route fine in
            (
              λ both.
                  GrantedTo-routed texts k t ip service backend _ valid.apart (sym routed ∙ both.1)
                    (policy.0 both.0),
              λ granted.
                  let (r, l) =
                    routed-GrantedTo texts k t ip service backend _ valid.apart last.spelt
                      granted in
                  (policy.1 l, routed ∙ r),
            )
      ]
