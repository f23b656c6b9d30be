-- ===== src/Server/Start/Accepted.antt =====
-- server.go, `NewServer`: which configurations start a server.
use gocloak.Base.{
  ℕ, ◌≡◌, ◌≢◌, ◌≤◌, inl, inr, refl, true, false, [], some, arith, Result, ok, ℤ, pos, negsuc,
  Result-cases,
}
use gocloak.Config.Peers.{LoadError, PeersConfig}
use gocloak.Config.Server.{
  ServerYaml, ServerFileConfig, outside, mtu_or_default, check_server_config,
}
use gocloak.Config.{Parsers, valid_secret_ref, server_tunnel_ip, min_mtu, max_mtu, parse_tunnel_ip}
use gocloak.Net.{unmap, is_valid, addr_beq, addr_beq_iff}
use gocloak.Server.Start.{ServerConfig, server_config_from, new_server}

-- What a server runs on: a port from 1 to 65535, a reference to its key, its address 10.99.0.1, an MTU from
-- 1280 to 1500, and a path.
pub record IsServerConfig (c : ServerConfig) : Type 0 where
  pub port : (n : ℕ) × (c.listen_port ≡ pos n) × (1 ≤ n) × (n ≤ 65535)
  pub key : valid_secret_ref c.private_key ≡ ok tt
  pub ip : c.tunnel_ip ≡ server_tunnel_ip
  pub mtu : (n : ℕ) × (c.mtu ≡ pos n) × (min_mtu ≤ n) × (n ≤ max_mtu)
  pub path : c.peers_file ≢ []

inside : (lo hi : ℕ) (z : ℤ) → outside lo hi z ≡ false → (n : ℕ) × (z ≡ pos n) × (lo ≤ n) × (n ≤ hi)
inside lo hi (pos n) h = (n, refl, ground arith, ground arith)
inside lo hi (negsuc n) h = absurd (ground arith)

-- `NewServer` fails where the peers file does not load, and a configuration that it accepts is one that a
-- server can run on.
pub new_server-IsServerConfig :
    (cfg c : ServerConfig) (loaded : Result LoadError PeersConfig)
    → new_server cfg loaded ≡ ok c
    → IsServerConfig c × ((peers : PeersConfig) × (loaded ≡ ok peers))
unfolding new_server
new_server-IsServerConfig cfg c loaded h = elim (Result-cases loaded) [
  | inr (e, failed) ↦ absurd (ground arith)
  | inl (peers, loads) ↦ (
    record {
      port = inside 1 65535 c.listen_port (ground arith);
      key = ground arith;
      ip = ground (arith, addr_beq_iff (unmap cfg.tunnel_ip) server_tunnel_ip);
      mtu = inside min_mtu max_mtu c.mtu (ground arith);
      path = λ empty. ground arith;
    },
    (peers, loads),
  )
]

mtu_or_default-settles : (z : ℤ) → mtu_or_default (mtu_or_default z) ≡ mtu_or_default z
unfolding mtu_or_default
mtu_or_default-settles (pos n) = ground arith
mtu_or_default-settles (negsuc n) = refl

-- A server.yaml that `LoadServerConfig` accepts, and a peers file that loads, start a server on what the
-- file says: `ServerConfigFrom` loses nothing that `NewServer` needs.
pub new_server-check_server_config :
    (lib : Parsers) (raw : ServerYaml) (fc : ServerFileConfig) (peers : PeersConfig)
    → check_server_config lib raw ≡ ok fc
    → new_server (server_config_from (some fc)) (ok peers) ≡ ok (server_config_from (some fc))
unfolding new_server check_server_config server_config_from
new_server-check_server_config lib raw fc peers h =
    elim (Result-cases (parse_tunnel_ip lib raw.tunnel_ip)) [
      | inr (e, failed) ↦ absurd (ground arith)
      | inl (addr, parses) ↦
          let at : addr ≡ server_tunnel_ip = ground (arith, addr_beq_iff addr server_tunnel_ip) in
          let kept : fc.tunnel_ip ≡ server_tunnel_ip = ground arith in
          let mtu : fc.mtu ≡ mtu_or_default raw.mtu = ground arith in
          let plain : unmap fc.tunnel_ip ≡ server_tunnel_ip = rw kept (unfold unmap in refl) in
          let ours : addr_beq (unmap fc.tunnel_ip) server_tunnel_ip ≡ true =
            (addr_beq_iff (unmap fc.tunnel_ip) server_tunnel_ip).1 plain in
          let valid : is_valid fc.tunnel_ip ≡ true = rw kept refl in
          let settled : mtu_or_default fc.mtu ≡ fc.mtu = rw mtu (mtu_or_default-settles raw.mtu) in
          ground arith
    ]
