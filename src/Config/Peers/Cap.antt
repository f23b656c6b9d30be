-- ===== src/Config/Peers/Cap.antt =====
-- config.go, `LoadPeersConfig`: the address plan caps the number of peers.
use gocloak.Base.{
  ℕ, suc, ◌-◌, ◌%◌, ◌≤◌, ◌<◌, ◌≡◌, ◌≢◌, refl, ap, List, [], ◌∷◌, arith, ok, All, length,
}
use gocloak.Base.Pigeonhole.{AllDiffer, pigeonhole}
use gocloak.Config.Addresses.{IsHost}
use gocloak.Config.Peers.Loaded.{Apart, AllApart, Validates, check_peers_config-IsPeersConfig}
use gocloak.Config.Peers.{PeerYaml, PeerConfig, PeersConfig, check_peers_config}
use gocloak.Config.{Parsers}
use gocloak.Net.{Addr, v4}

-- The last byte of an address.
host_number : Addr → ℕ
host_number (v4 n) = n % 256
host_number _ = 0

abbrev slot : PeerConfig → ℕ
slot p = host_number p.tunnel_ip - 2

slot-lt : (p : PeerConfig) → IsHost p.tunnel_ip → slot p < 253
unfolding host_number
slot-lt p (n, e, lo, hi) = rw e (omega arith)

slot-ne :
    (p q : PeerConfig)
    → IsHost p.tunnel_ip
    → IsHost q.tunnel_ip
    → p.tunnel_ip ≢ q.tunnel_ip
    → slot p ≢ slot q
unfolding host_number
slot-ne p q (n, e, lo, hi) (m, e', lo', hi') apart h = ground arith

abbrev Hosts : List PeerConfig → Type 0
Hosts = All (λ (p : PeerConfig). IsHost p.tunnel_ip)

Validates-Hosts :
    (lib : Parsers) (raw : List PeerYaml) (ps : List PeerConfig)
    → Validates lib raw ps
    → Hosts ps × (length ps ≡ length raw)
Validates-Hosts lib [] [] v = (tt, refl)
Validates-Hosts lib (r ∷ raw) (p ∷ ps) v =
    let (hosts, same) = Validates-Hosts lib raw ps v.1 in ((v.0.host, hosts), ap suc same)
Validates-Hosts lib [] (p ∷ ps) v = absurd v
Validates-Hosts lib (r ∷ raw) [] v = absurd v

Apart-slot :
    (p : PeerConfig) (ps : List PeerConfig)
    → IsHost p.tunnel_ip
    → Hosts ps
    → All (Apart p) ps
    → All (λ q. slot p ≢ slot q) ps
Apart-slot p [] h hs a = tt
Apart-slot p (q ∷ ps) h hs a = (slot-ne p q h hs.0 a.0.ips, Apart-slot p ps h hs.1 a.1)

AllApart-AllDiffer :
    (ps : List PeerConfig) → Hosts ps → AllApart ps → AllDiffer slot ps × All (λ p. slot p < 253) ps
AllApart-AllDiffer [] h a = (tt, tt)
AllApart-AllDiffer (p ∷ ps) h a =
    let (differ, below) = AllApart-AllDiffer ps h.1 a.1 in
    ((Apart-slot p ps h.0 h.1 a.0, differ), (slot-lt p h.0, below))

-- A peers file that loads has at most 253 peers, as many as 10.99.0.0/24 has host addresses beside the
-- server's.
pub check_peers_config_cap :
    (lib : Parsers) (raw : List PeerYaml) (c : PeersConfig)
    → check_peers_config lib raw ≡ ok c
    → (length raw ≤ 253) × (length c.peers ≡ length raw)
check_peers_config_cap lib raw c h =
    let v = check_peers_config-IsPeersConfig lib raw c h in
    let (hosts, same) = Validates-Hosts lib raw c.peers v.entries in
    let (differ, below) = AllApart-AllDiffer c.peers hosts v.apart in
    (omega (arith, pigeonhole slot 253 c.peers differ below), same)
