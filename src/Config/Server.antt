-- ===== src/Config/Server.antt =====
-- config.go, `LoadServerConfig`: server.yaml behind its decoding.
use gocloak.Base.{
  ℕ, Bool, not, ◌||◌, ◌&&◌, Bytes, [], ◌∷◌, Result, ok, ◌>>=◌, ◌>>◌, fail_if, map_err, ℤ, pos,
  negsuc, pos_part, is_negative, codes, bytes_beq, ltb, nat_beq, if◌then◌else◌,
}
use gocloak.Config.{
  Parsers, ValueError, parse_tunnel_ip, valid_secret_ref, server_tunnel_ip, default_mtu, min_mtu,
  max_mtu,
}
use gocloak.Net.{Addr, addr_beq}
use gocloak.Secret.{SecretRef, is_empty}

-- `serverYAML`
pub record ServerYaml : Type 0 where
  pub listen_port : ℤ
  pub private_key : SecretRef
  pub tunnel_ip : Bytes
  pub mtu : ℤ
  pub peers_file : Bytes
  pub log_format : Bytes

-- `ServerFileConfig`
pub record ServerFileConfig : Type 0 where
  pub listen_port : ℤ
  pub private_key : SecretRef
  pub tunnel_ip : Addr
  pub mtu : ℤ
  pub peers_file : Bytes
  pub log_format : Bytes

pub data ServerError : Type 0 where
  bad_listen_port : ℤ → ServerError
  bad_private_key : ValueError → ServerError
  bad_tunnel_ip : ValueError → ServerError
  not_server_ip : ServerError
  bad_mtu : ℤ → ServerError
  no_peers_file : ServerError
  bad_log_format : ServerError

-- Not `lo <= n && n <= hi`, for bounds that are not negative.
abbrev pub outside : ℕ → ℕ → ℤ → Bool
outside lo hi n = is_negative n || ltb (pos_part n) lo || ltb hi (pos_part n)

-- `if cfg.MTU == 0 { cfg.MTU = DefaultMTU }`
unfoldable pub mtu_or_default : ℤ → ℤ
mtu_or_default (pos n) = if nat_beq n 0 then pos default_mtu else pos n
mtu_or_default (negsuc n) = negsuc n

-- `if cfg.LogFormat == "" { cfg.LogFormat = DefaultLogFormat }`
unfoldable pub log_format_or_default : Bytes → Bytes
log_format_or_default [] = codes "json"
log_format_or_default (c ∷ cs) = c ∷ cs

-- `LoadServerConfig` once the file is decoded.
unfoldable pub check_server_config : Parsers → ServerYaml → Result ServerError ServerFileConfig
unfolding mtu_or_default log_format_or_default
check_server_config lib raw = do
  fail_if (outside 1 65535 raw.listen_port) (bad_listen_port raw.listen_port)
  map_err bad_private_key (valid_secret_ref raw.private_key)
  addr ← map_err bad_tunnel_ip (parse_tunnel_ip lib raw.tunnel_ip)
  fail_if (not (addr_beq addr server_tunnel_ip)) not_server_ip
  let mtu = mtu_or_default raw.mtu
  fail_if (outside min_mtu max_mtu mtu) (bad_mtu mtu)
  fail_if (is_empty raw.peers_file) no_peers_file
  let log_format = log_format_or_default raw.log_format
  fail_if (not (bytes_beq log_format (codes "json")) && not (bytes_beq log_format (codes "text")))
      bad_log_format
  ok (record {
    listen_port = raw.listen_port;
    private_key = raw.private_key;
    tunnel_ip = addr;
    mtu = mtu;
    peers_file = raw.peers_file;
    log_format = log_format;
  })
