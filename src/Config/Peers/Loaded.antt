-- ===== src/Config/Peers/Loaded.antt =====
-- config.go, `LoadPeersConfig`: the peer list as a whole.
use gocloak.Base.{
  ℕ, suc, ◌≡◌, ◌≢◌, ◌↔◌, false, Bytes, List, [], ◌∷◌, map, arith, some, ok, All, Any, contains,
  bytes_eq, lookup, Eq,
}
use gocloak.Config.Addresses.{parse_tunnel_ip-unmap}
use gocloak.Config.Diff.Keys.{DistinctKeys}
use gocloak.Config.Peers.Valid.{IsPeerConfig, validate_peer-IsPeerConfig}
use gocloak.Config.Peers.{
  PeerYaml, PeerConfig, PeersConfig, Seen, nothing_seen, seen_with, validate_peer, check_seen,
  load_peers, check_peers_config, to_policy,
}
use gocloak.Config.{Parsers}
use gocloak.Net.{Addr, AddrPort, unmap, addr_eq}
use gocloak.Policy.Grants.{Grants, resolve-new_policy}
use gocloak.Policy.{new_policy, resolve}

module _ {ℓ} {A : Type ℓ} ⦃e : Eq A⦄ where
  not-contains : (xs : List A) (a : A) → contains xs a ≡ false → All (λ x. x ≢ a) xs
  unfolding contains
  not-contains [] a h = tt
  not-contains (x ∷ xs) a h = ground (arith, e.beq_iff x a, not-contains xs a)

-- Two entries with different names, keys and addresses.
pub record Apart (p q : PeerConfig) : Type 0 where
  pub names : p.name ≢ q.name
  pub keys : p.public_key ≢ q.public_key
  pub ips : p.tunnel_ip ≢ q.tunnel_ip

-- Every two entries of the list are apart.
abbrev pub AllApart : List PeerConfig → Type 0
AllApart [] = Unit
AllApart (p ∷ ps) = All (Apart p) ps × AllApart ps

pub DistinctKeys-AllApart : (ps : List PeerConfig) → AllApart ps → DistinctKeys ps
DistinctKeys-AllApart [] a = tt
DistinctKeys-AllApart (p ∷ ps) a = (keys ps a.0, DistinctKeys-AllApart ps a.1)
  where
    keys :
        (qs : List PeerConfig)
        → All (Apart p) qs
        → All (λ (q : PeerConfig). p.public_key ≢ q.public_key) qs
    keys [] h = tt
    keys (q ∷ qs) h = (h.0.keys, keys qs h.1)

-- Nothing of the entry is in the sets.
record Unseen (s : Seen) (p : PeerConfig) : Type 0 where
  names : All (λ n. n ≢ p.name) s.names
  keys : All (λ k. k ≢ p.public_key) s.keys
  ips : All (λ a. a ≢ p.tunnel_ip) s.ips

check_seen-Unseen : (i : ℕ) (p : PeerConfig) (s : Seen) → check_seen i p s ≡ ok tt → Unseen s p
unfolding check_seen
check_seen-Unseen i p s h = record {
  names = not-contains s.names p.name (ground arith);
  keys = not-contains s.keys p.public_key (ground arith);
  ips = not-contains s.ips p.tunnel_ip (ground arith);
}

-- The validated entries, one for each raw entry, in order.
abbrev pub Validates : Parsers → List PeerYaml → List PeerConfig → Type 0
Validates lib [] [] = Unit
Validates lib (r ∷ rs) (p ∷ ps) = IsPeerConfig lib r p × Validates lib rs ps
Validates lib _ _ = ⊥

split_Unseen :
    (p : PeerConfig) (s : Seen) (ps : List PeerConfig)
    → All (Unseen (seen_with p s)) ps
    → All (Apart p) ps × All (Unseen s) ps
split_Unseen p s [] h = (tt, tt)
split_Unseen p s (q ∷ ps) h =
    let (apart, unseen) = split_Unseen p s ps h.1 in
    let u = h.0 in
    (
      (record { names = u.names.0; keys = u.keys.0; ips = u.ips.0 }, apart),
      (record { names = u.names.1; keys = u.keys.1; ips = u.ips.1 }, unseen),
    )

load_peers-AllApart :
    (lib : Parsers) (i : ℕ) (s : Seen) (raw : List PeerYaml) (ps : List PeerConfig)
    → load_peers lib i s raw ≡ ok ps
    → Validates lib raw ps × AllApart ps × All (Unseen s) ps
unfolding load_peers
load_peers-AllApart lib i s [] [] h = (tt, tt, tt)
load_peers-AllApart lib i s [] (p ∷ ps) h = cc
load_peers-AllApart lib i s (r ∷ raw) [] h = absurd (ground arith)
load_peers-AllApart lib i s (r ∷ raw) (p ∷ ps) h =
    let valid : validate_peer lib r ≡ ok p = ground arith in
    let unseen : check_seen i p s ≡ ok tt = ground arith in
    let later : load_peers lib (suc i) (seen_with p s) raw ≡ ok ps = ground arith in
    let (vs, apart, us) = load_peers-AllApart lib (suc i) (seen_with p s) raw ps later in
    let (apart_p, unseen_s) = split_Unseen p s ps us in
    (
      (validate_peer-IsPeerConfig lib r p valid, vs),
      (apart_p, apart),
      (check_seen-Unseen i p s unseen, unseen_s),
    )

-- What a loaded configuration guarantees.
pub record IsPeersConfig (lib : Parsers) (raw : List PeerYaml) (c : PeersConfig) : Type 0 where
  pub entries : Validates lib raw c.peers
  pub apart : AllApart c.peers
  pub policy : new_policy (map to_policy c.peers) ≡ ok c.policy

-- A peers file that loads yields one validated entry for each raw one, in order, no two with the same
-- name, public key or tunnel address, and the policy built from those entries.
pub check_peers_config-IsPeersConfig :
    (lib : Parsers) (raw : List PeerYaml) (c : PeersConfig)
    → check_peers_config lib raw ≡ ok c
    → IsPeersConfig lib raw c
unfolding check_peers_config
check_peers_config-IsPeersConfig lib raw c h =
    let peers : load_peers lib 0 nothing_seen raw ≡ ok c.peers = ground arith in
    let (entries, apart, _) = load_peers-AllApart lib 0 nothing_seen raw c.peers peers in
    record { entries = entries; apart = apart; policy = ground arith }

-- The entry of a peer lists the service, with this backend.
abbrev pub Lists : Addr → Bytes → AddrPort → PeerConfig → Type 0
Lists ip service backend p = (p.tunnel_ip ≡ unmap ip) × (lookup service p.allow ≡ some backend)

Any-to_policy :
    (lib : Parsers) (ip : Addr) (service : Bytes) (backend : AddrPort) (raw : List PeerYaml)
    (ps : List PeerConfig)
    → Validates lib raw ps
    → Any (Grants ip service backend) (map to_policy ps) ↔ Any (Lists ip service backend) ps
Any-to_policy lib ip service backend [] [] v = ((λ a. a), λ a. a)
Any-to_policy lib ip service backend [] (p ∷ ps) v = absurd v
Any-to_policy lib ip service backend (r ∷ raw) [] v = absurd v
Any-to_policy lib ip service backend (r ∷ raw) (p ∷ ps) v =
    let ih = Any-to_policy lib ip service backend raw ps v.1 in
    let plain = (parse_tunnel_ip-unmap lib r.tunnel_ip p.tunnel_ip v.0.parsed).0 in
    ((λ a. ground (arith, ih.0, plain)), λ a. ground (arith, ih.1, plain))

pub resolve-IsPeersConfig :
    (lib : Parsers) (raw : List PeerYaml) (c : PeersConfig) (ip : Addr) (service : Bytes)
    (backend : AddrPort)
    → IsPeersConfig lib raw c
    → (resolve c.policy ip service ≡ some backend) ↔ Any (Lists ip service backend) c.peers
resolve-IsPeersConfig lib raw c ip service backend v =
    let granted = resolve-new_policy (map to_policy c.peers) c.policy ip service backend v.policy in
    let listed = Any-to_policy lib ip service backend raw c.peers v.entries in
    ((λ g. listed.0 (granted.0 g)), λ a. granted.1 (listed.1 a))

-- The policy of a peers file that loads grants a service to an address, at a backend, exactly if the
-- entry of the peer at that address lists the service with that backend.
pub resolve-check_peers_config :
    (lib : Parsers) (raw : List PeerYaml) (c : PeersConfig) (ip : Addr) (service : Bytes)
    (backend : AddrPort)
    → check_peers_config lib raw ≡ ok c
    → (resolve c.policy ip service ≡ some backend) ↔ Any (Lists ip service backend) c.peers
resolve-check_peers_config lib raw c ip service backend h =
    resolve-IsPeersConfig lib raw c ip service backend
      (check_peers_config-IsPeersConfig lib raw c h)
