-- ===== src/Config.antt =====
-- config.go: the tunnel's address plan and the checks on single values of the two files.
pub mod Addresses
pub mod Yaml
pub mod Diff
pub mod Reload
pub mod Watch
pub mod Server
pub mod Peers
use Prim.Native.Nat.{bit_or}
use gocloak.Base.{
  ℕ, ◌+◌, ◌-◌, ◌*◌, ◌/◌, ◌%◌, ◌^◌, Bool, true, false, not, ◌||◌, Bytes, List, [], ◌∷◌, Option, none,
  some, Result, ok, err, ◌>>=◌, ◌>>◌, fail_if, length, nat_beq,
}
use gocloak.Net.{Addr, invalid, v4, v6, AddrPort, Prefix, from4, unmap, is_valid, is_unspecified}
use gocloak.Secret.{SecretRef, is_empty, parse_secret_ref}

-- Parsers of the standard library that the checks call, as functions of the text: `netip.ParseAddr`,
-- `netip.ParseAddrPort` and `base64.StdEncoding.DecodeString`; `none` is an error.
pub record Parsers : Type 0 where
  pub parse_addr : Bytes → Option Addr
  pub parse_addr_port : Bytes → Option AddrPort
  pub decode_base64 : Bytes → Option Bytes

abbrev pub default_mtu : ℕ
default_mtu = 1280

abbrev pub min_mtu : ℕ
min_mtu = 1280

abbrev pub max_mtu : ℕ
max_mtu = 1500

abbrev pub default_max_concurrent : ℕ
default_max_concurrent = 32

abbrev pub default_dials_per_second : ℕ
default_dials_per_second = 10

abbrev pub wg_key_len : ℕ
wg_key_len = 32

-- `tunnelSubnet` and `serverTunnelIP`
abbrev pub tunnel_subnet : Prefix
tunnel_subnet = record { base = 10 * 2 ^ 24 + 99 * 2 ^ 16; bits = 24 }

abbrev pub server_tunnel_ip : Addr
server_tunnel_ip = from4 10 99 0 1

-- `Prefix.Contains` of an IPv4 prefix: an address of the same family with the same leading bits.
unfoldable pub prefix_contains : Prefix → Addr → Bool
prefix_contains p (v4 n) = nat_beq (n / 2 ^ (32 - p.bits)) (p.base / 2 ^ (32 - p.bits))
prefix_contains p _ = false

-- `Prefix.Masked().Addr()`
unfoldable pub masked : Prefix → ℕ
masked p = p.base / 2 ^ (32 - p.bits) * 2 ^ (32 - p.bits)

-- `subnetBroadcast`
unfoldable pub subnet_broadcast : Prefix → Addr
unfolding masked
subnet_broadcast p =
    let host = (2 ^ (32 - p.bits) - 1) % 2 ^ 32 in
    let v = bit_or (masked p) host in
    from4 (v / 2 ^ 24 % 256) (v / 2 ^ 16 % 256) (v / 2 ^ 8 % 256) (v % 256)

-- Why a single value is refused.
pub data ValueError : Type 0 where
  is_required : ValueError
  not_an_ip : ValueError
  unspecified_address : ValueError
  not_base64 : ValueError
  wrong_key_length : ℕ → ValueError
  not_a_reference : ValueError

abbrev pub parsed : {A : Type 0} → Option A → ValueError → Result ValueError A
parsed none e = err e
parsed (some a) e = ok a

-- `parseTunnelIP`
unfoldable pub parse_tunnel_ip : Parsers → Bytes → Result ValueError Addr
parse_tunnel_ip lib s = do
  fail_if (is_empty s) is_required
  addr ← parsed (lib.parse_addr s) not_an_ip
  fail_if (not (is_valid (unmap addr)) || is_unspecified (unmap addr)) unspecified_address
  ok (unmap addr)

-- `validPublicKey`
unfoldable pub valid_public_key : Parsers → Bytes → Result ValueError (Unit {0})
valid_public_key lib s = do
  fail_if (is_empty s) is_required
  key ← parsed (lib.decode_base64 s) not_base64
  fail_if (not (nat_beq (length key) wg_key_len)) (wrong_key_length (length key))

abbrev shape_only : {A E : Type 0} → Result E A → Result ValueError (Unit {0})
shape_only (ok _) = ok tt
shape_only (err _) = err not_a_reference

-- `validSecretRef`: the shape of a reference, without resolving it.
unfoldable pub valid_secret_ref : SecretRef → Result ValueError (Unit {0})
valid_secret_ref ref = do fail_if (is_empty ref) is_required; shape_only (parse_secret_ref ref)
