-- ===== src/Config/Peers/Valid.antt =====
-- config.go, `validatePeer`: what a peer entry that passes looks like.
use gocloak.Base.{
  ℕ, zero, suc, ◌<◌, ◌≡◌, inl, inr, ap, true, Bytes, List, [], ◌∷◌, arith, some, ok, Option-cases,
  Result-cases, All, length, insert, bytes_eq, ℤ, pos, negsuc,
}
use gocloak.Config.Addresses.{IsHost, check_host_iff}
use gocloak.Config.Peers.{
  LimitsYaml, PeerYaml, PeerConfig, parse_allow, check_limits, validate_peer,
}
use gocloak.Config.{Parsers, wg_key_len, parse_tunnel_ip, valid_public_key, valid_secret_ref}
use gocloak.Limiter.{Limits}
use gocloak.Net.{AddrPort, unmap, unmap-unmap}
use gocloak.Policy.{Allow}
use gocloak.Secret.{parse_secret_ref}
use gocloak.Wire.Names.{IsServiceName, valid_service_name_iff}
use gocloak.Wire.{valid_service_name}

-- A backend of an allow map that was parsed: in plain form, with a port.
abbrev pub IsBackend : Bytes × AddrPort → Type 0
IsBackend e = IsServiceName e.0 × (unmap e.1.addr ≡ e.1.addr) × (0 < e.1.port)

insert-All :
    (P : Bytes × AddrPort → Type 0) (k : Bytes) (v : AddrPort) (m : Allow)
    → P (k, v)
    → All P m
    → All P (insert k v m)
unfolding insert
insert-All P k v [] p h = (p, tt)
insert-All P k v ((j, w) ∷ m) p h = ground (arith, insert-All P k v m p h.1)

pub parse_allow-IsBackend :
    (lib : Parsers) (raw : List (Bytes × Bytes)) (a : Allow)
    → parse_allow lib raw ≡ ok a
    → All IsBackend a
unfolding parse_allow
parse_allow-IsBackend lib [] a h = ground arith
parse_allow-IsBackend lib ((name, b) ∷ raw) a h = elim (Option-cases (lib.parse_addr_port b)) [
  | inl e ↦ absurd (ground arith)
  | inr (ap, e) ↦ elim (Result-cases (parse_allow lib raw)) [
    | inr (x, e') ↦ absurd (ground arith)
    | inl (rest, e') ↦
        let backend : AddrPort = record { addr = unmap ap.addr; port = ap.port } in
        let is : a ≡ insert name backend rest = ground arith in
        let valid : valid_service_name name ≡ true = ground arith in
        rw is (
          insert-All IsBackend name backend rest
            ((valid_service_name_iff name).0 valid, unmap-unmap ap.addr, ground arith)
            (parse_allow-IsBackend lib raw rest e'))
  ]
]

-- A key of 32 bytes in base64.
abbrev pub IsKey : Parsers → Bytes → Type 0
IsKey lib s = (key : Bytes) × (lib.decode_base64 s ≡ some key) × (length key ≡ wg_key_len)

valid_public_key-IsKey : (lib : Parsers) (s : Bytes) → valid_public_key lib s ≡ ok tt → IsKey lib s
unfolding valid_public_key
valid_public_key-IsKey lib s h = elim (Option-cases (lib.decode_base64 s)) [
  | inl e ↦ absurd (ground arith)
  | inr (key, e) ↦ (key, e, ground arith)
]

-- A text that has the shape of a secret reference.
abbrev pub IsSecretRef : Bytes → Type 0
IsSecretRef s = (parts : Bytes × Bytes) × (parse_secret_ref s ≡ ok parts)

pub valid_secret_ref-IsSecretRef : (s : Bytes) → valid_secret_ref s ≡ ok tt → IsSecretRef s
unfolding valid_secret_ref
valid_secret_ref-IsSecretRef s h = elim (Result-cases (parse_secret_ref s)) [
  | inl (parts, e) ↦ (parts, e)
  | inr (x, e) ↦ absurd (ground arith)
]

-- A limit as the file gives it: 0 or absent stands for the default, and a negative one is refused.
abbrev pub IsLimit : ℤ → ℕ → ℕ → Type 0
IsLimit (pos zero) d n = n ≡ d
IsLimit (pos (suc m)) d n = n ≡ suc m
IsLimit (negsuc m) d n = ⊥

check_limits-IsLimit :
    (raw : LimitsYaml) (l : Limits)
    → check_limits raw ≡ ok l
    → IsLimit raw.max_concurrent 32 l.max_concurrent
      × IsLimit raw.dials_per_second 10 l.dials_per_second
unfolding check_limits
check_limits-IsLimit raw l h = (ground arith, ground arith)

-- What `validatePeer` guarantees of the entry that it returns.
pub record IsPeerConfig (lib : Parsers) (rp : PeerYaml) (p : PeerConfig) : Type 0 where
  pub named : (p.name ≡ rp.name) × IsServiceName p.name
  pub keyed : (p.public_key ≡ rp.public_key) × IsKey lib p.public_key
  pub psk : (p.psk ≡ rp.psk) × IsSecretRef p.psk
  pub host : IsHost p.tunnel_ip
  pub parsed : parse_tunnel_ip lib rp.tunnel_ip ≡ ok p.tunnel_ip
  pub concurrency : IsLimit rp.limits.max_concurrent 32 p.limits.max_concurrent
  pub rate : IsLimit rp.limits.dials_per_second 10 p.limits.dials_per_second
  pub backends : All IsBackend p.allow

-- An entry that `validatePeer` accepts has a name of the wire protocol's charset, a key of 32 bytes, a
-- secret reference of the right shape, one of the addresses 10.99.0.2 to 10.99.0.254, the limits of
-- the file or the defaults 32 and 10 where it has none, and only backends under valid names, in
-- plain form and with a port that is not zero.
pub validate_peer-IsPeerConfig :
    (lib : Parsers) (rp : PeerYaml) (p : PeerConfig)
    → validate_peer lib rp ≡ ok p
    → IsPeerConfig lib rp p
unfolding validate_peer
validate_peer-IsPeerConfig lib rp p h =
    let named : valid_service_name p.name ≡ true = ground arith in
    let addr : parse_tunnel_ip lib rp.tunnel_ip ≡ ok p.tunnel_ip = ground arith in
    let limits : check_limits rp.limits ≡ ok p.limits = ground arith in
    record {
      named = (ground arith, (valid_service_name_iff p.name).0 named);
      keyed = (ground arith, valid_public_key-IsKey lib p.public_key (ground arith));
      psk = (ground arith, valid_secret_ref-IsSecretRef p.psk (ground arith));
      host = (check_host_iff p.tunnel_ip).0 (ground arith);
      parsed = addr;
      concurrency = (check_limits-IsLimit rp.limits p.limits limits).0;
      rate = (check_limits-IsLimit rp.limits p.limits limits).1;
      backends = parse_allow-IsBackend lib rp.allow p.allow (ground arith);
    }
