-- ===== src/Server/Start.antt =====
-- server.go, `NewServer`: the checks before a server starts.
pub mod Accepted
use gocloak.Base.{
  ℕ, Bool, true, false, not, Bytes, [], Option, none, some, Result, ok, err, ◌>>=◌, ◌>>◌, fail_if,
  map_err, ℤ, pos,
}
use gocloak.Config.Peers.{LoadError, PeersConfig}
use gocloak.Config.Server.{ServerFileConfig, outside, mtu_or_default}
use gocloak.Config.{ValueError, valid_secret_ref, server_tunnel_ip, min_mtu, max_mtu}
use gocloak.Net.{Addr, invalid, unmap, is_valid, addr_beq}
use gocloak.Secret.{SecretRef, is_empty}

-- `ServerConfig`, less the resolver of secrets.
pub record ServerConfig : Type 0 where
  pub listen_port : ℤ
  pub private_key : SecretRef
  pub tunnel_ip : Addr
  pub mtu : ℤ
  pub peers_file : Bytes

pub data StartError : Type 0 where
  bad_listen_port : ℤ → StartError
  bad_private_key : ValueError → StartError
  tunnel_ip_required : StartError
  not_server_ip : StartError
  bad_mtu : ℤ → StartError
  no_peers_file : StartError
  bad_peers_file : LoadError → StartError

-- `ServerConfigFrom`; `none` is nil.
unfoldable pub server_config_from : Option ServerFileConfig → ServerConfig
server_config_from none = record {
  listen_port = pos 0;
  private_key = [];
  tunnel_ip = invalid;
  mtu = pos 0;
  peers_file = [];
}
server_config_from (some fc) = record {
  listen_port = fc.listen_port;
  private_key = fc.private_key;
  tunnel_ip = fc.tunnel_ip;
  mtu = fc.mtu;
  peers_file = fc.peers_file;
}

-- `NewServer`, with what `LoadPeersConfig` gives for the peers file; the result is the configuration that
-- the server keeps.
unfoldable pub new_server :
    ServerConfig → Result LoadError PeersConfig → Result StartError ServerConfig
new_server cfg loaded = do
  fail_if (outside 1 65535 cfg.listen_port) (bad_listen_port cfg.listen_port)
  map_err bad_private_key (valid_secret_ref cfg.private_key)
  fail_if (not (is_valid cfg.tunnel_ip)) tunnel_ip_required
  fail_if (not (addr_beq (unmap cfg.tunnel_ip) server_tunnel_ip)) not_server_ip
  let mtu = mtu_or_default cfg.mtu
  fail_if (outside min_mtu max_mtu mtu) (bad_mtu mtu)
  fail_if (is_empty cfg.peers_file) no_peers_file
  _ ← map_err bad_peers_file loaded
  ok (record cfg { mtu = mtu; tunnel_ip = unmap cfg.tunnel_ip })
