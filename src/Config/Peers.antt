-- ===== src/Config/Peers.antt =====
-- config.go, `LoadPeersConfig`: peers.yaml behind its decoding.
pub mod Valid
pub mod Loaded
pub mod Cap
use gocloak.Base.{
  ℕ, suc, Bool, true, false, not, ◌||◌, Bytes, List, [], ◌∷◌, map, Option, none, some, Result, ok,
  err, ◌>>=◌, ◌>>◌, fail_if, map_err, ℤ, pos, negsuc, pos_part, is_negative, contains, bytes_eq,
  insert, nat_beq, if◌then◌else◌,
}
use gocloak.Config.{
  Parsers, ValueError, parse_tunnel_ip, valid_public_key, valid_secret_ref, tunnel_subnet,
  prefix_contains, masked, subnet_broadcast, server_tunnel_ip, default_max_concurrent,
  default_dials_per_second,
}
use gocloak.Config.Yaml.{Documents, DecodeError, decode_strict}
use gocloak.Limiter.{Limits}
use gocloak.Net.{Addr, v4, AddrPort, unmap, is_valid, addr_beq, addr_eq}
use gocloak.Policy.{Allow, PeerPolicy, Policy, PolicyError, new_policy}
use gocloak.Secret.{SecretRef, is_empty}
use gocloak.Wire.{valid_service_name}

-- `limitsYAML`
pub record LimitsYaml : Type 0 where
  pub max_concurrent : ℤ
  pub dials_per_second : ℤ

-- `peerYAML`
pub record PeerYaml : Type 0 where
  pub name : Bytes
  pub public_key : Bytes
  pub psk : SecretRef
  pub tunnel_ip : Bytes
  pub limits : LimitsYaml
  pub allow : List (Bytes × Bytes)

-- `peerConfig`
pub record PeerConfig : Type 0 where
  pub name : Bytes
  pub public_key : Bytes
  pub psk : SecretRef
  pub tunnel_ip : Addr
  pub limits : Limits
  pub allow : Allow

-- `PeersConfig`
pub record PeersConfig : Type 0 where
  pub peers : List PeerConfig
  pub policy : Policy

pub data PeerError : Type 0 where
  name_required : PeerError
  bad_name : PeerError
  bad_public_key : ValueError → PeerError
  bad_psk : ValueError → PeerError
  bad_tunnel_ip : ValueError → PeerError
  outside_subnet : Addr → PeerError
  server_address : PeerError
  not_host_address : Addr → PeerError
  negative_limits : PeerError
  bad_service_name : PeerError
  bad_backend_text : Bytes → PeerError
  zero_backend_port : Bytes → PeerError

abbrev backend_or : Option AddrPort → PeerError → Result PeerError AddrPort
backend_or none e = err e
backend_or (some a) e = ok a

-- The loop of `validatePeer` over the allow map.
unfoldable pub parse_allow : Parsers → List (Bytes × Bytes) → Result PeerError Allow
parse_allow lib [] = ok []
parse_allow lib ((name, backend) ∷ rest) = do
  fail_if (not (valid_service_name name)) bad_service_name
  ap ← backend_or (lib.parse_addr_port backend) (bad_backend_text name)
  fail_if (not (is_valid ap.addr) || nat_beq ap.port 0) (zero_backend_port name)
  parsed ← parse_allow lib rest
  ok (insert name (record { addr = unmap ap.addr; port = ap.port }) parsed)

abbrev pub or_default : ℤ → ℕ → ℕ
or_default n d = if nat_beq (pos_part n) 0 then d else pos_part n

-- The checks of `validatePeer` on the tunnel address.
unfoldable pub check_host : Addr → Result PeerError (Unit {0})
check_host addr = do
  fail_if (not (prefix_contains tunnel_subnet addr)) (outside_subnet addr)
  fail_if (addr_beq addr server_tunnel_ip) server_address
  fail_if
      (addr_beq addr (v4 (masked tunnel_subnet)) || addr_beq addr (subnet_broadcast tunnel_subnet))
      (not_host_address addr)

-- The part of `validatePeer` on the limits.
unfoldable pub check_limits : LimitsYaml → Result PeerError Limits
check_limits l = do
  fail_if (is_negative l.max_concurrent || is_negative l.dials_per_second) negative_limits
  ok (record {
    max_concurrent = or_default l.max_concurrent default_max_concurrent;
    dials_per_second = or_default l.dials_per_second default_dials_per_second;
  })

-- `validatePeer`
unfoldable pub validate_peer : Parsers → PeerYaml → Result PeerError PeerConfig
validate_peer lib rp = do
  fail_if (is_empty rp.name) name_required
  fail_if (not (valid_service_name rp.name)) bad_name
  map_err bad_public_key (valid_public_key lib rp.public_key)
  map_err bad_psk (valid_secret_ref rp.psk)
  addr ← map_err bad_tunnel_ip (parse_tunnel_ip lib rp.tunnel_ip)
  check_host addr
  limits ← check_limits rp.limits
  allow ← parse_allow lib rp.allow
  ok (record {
    name = rp.name;
    public_key = rp.public_key;
    psk = rp.psk;
    tunnel_ip = addr;
    limits = limits;
    allow = allow;
  })

-- The errors of `LoadPeersConfig` name the position of the peer in the file.
pub data LoadError : Type 0 where
  unreadable : LoadError
  undecodable : DecodeError → LoadError
  bad_peer : ℕ → PeerError → LoadError
  duplicate_name : ℕ → LoadError
  duplicate_public_key : ℕ → LoadError
  duplicate_tunnel_ip : ℕ → LoadError
  bad_policy : PolicyError → LoadError

-- The sets that the loop of `LoadPeersConfig` keeps.
pub record Seen : Type 0 where
  pub names : List Bytes
  pub keys : List Bytes
  pub ips : List Addr

abbrev pub nothing_seen : Seen
nothing_seen = record { names = []; keys = []; ips = [] }

abbrev pub seen_with : PeerConfig → Seen → Seen
seen_with p s = record {
  names = p.name ∷ s.names;
  keys = p.public_key ∷ s.keys;
  ips = p.tunnel_ip ∷ s.ips;
}

-- The duplicate checks of one round.
unfoldable pub check_seen : ℕ → PeerConfig → Seen → Result LoadError (Unit {0})
check_seen i p s = do
  fail_if (contains s.names p.name) (duplicate_name i)
  fail_if (contains s.keys p.public_key) (duplicate_public_key i)
  fail_if (contains s.ips p.tunnel_ip) (duplicate_tunnel_ip i)

-- The loop of `LoadPeersConfig`, from position `i` on.
unfoldable pub load_peers : Parsers → ℕ → Seen → List PeerYaml → Result LoadError (List PeerConfig)
load_peers lib i s [] = ok []
load_peers lib i s (rp ∷ rps) = do
  p ← map_err (bad_peer i) (validate_peer lib rp)
  check_seen i p s
  ps ← load_peers lib (suc i) (seen_with p s) rps
  ok (p ∷ ps)

abbrev pub to_policy : PeerConfig → PeerPolicy
to_policy p = record { tunnel_ip = p.tunnel_ip; allow = p.allow }

-- `LoadPeersConfig` once the file is decoded.
unfoldable pub check_peers_config : Parsers → List PeerYaml → Result LoadError PeersConfig
check_peers_config lib raw = do
  peers ← load_peers lib 0 nothing_seen raw
  policy ← map_err bad_policy (new_policy (map to_policy peers))
  ok (record { peers = peers; policy = policy })

abbrev file_data : {A : Type 0} → Option A → Result LoadError A
file_data none = err unreadable
file_data (some docs) = ok docs

-- `LoadPeersConfig`, from what reading the file and decoding it as YAML give.
unfoldable pub load_peers_config :
    Parsers → Option (Documents (List PeerYaml)) → Result LoadError PeersConfig
load_peers_config lib file = do
  docs ← file_data file
  raw ← map_err undecodable (decode_strict docs)
  check_peers_config lib raw
