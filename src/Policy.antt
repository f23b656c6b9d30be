-- ===== src/Policy.antt =====
-- policy.go: who may reach what. A policy is built once and then only read.
pub mod Build
pub mod Grants
use gocloak.Base.{
  ℕ, Bool, true, false, not, ◌||◌, Bytes, List, [], ◌∷◌, Option, none, some, Result, ok, err, ◌>>=◌,
  ◌>>◌, fail_if, lookup, insert, has_key, nat_beq, bytes_eq,
}
use gocloak.Net.{Addr, AddrPort, unmap, is_valid, is_unspecified, addr_eq}
use gocloak.Wire.{valid_service_name}

-- `map[string]netip.AddrPort`
abbrev pub Allow : Type 0
Allow = List (Bytes × AddrPort)

-- `peerPolicy`
pub record PeerPolicy : Type 0 where
  pub tunnel_ip : Addr
  pub allow : Allow

-- `policy`
pub record Policy : Type 0 where
  pub peers : List (Addr × Allow)

pub data PolicyError : Type 0 where
  invalid_tunnel_ip : PolicyError
  unspecified_tunnel_ip : Addr → PolicyError
  duplicate_tunnel_ip : Addr → PolicyError
  invalid_service_name : Addr → PolicyError
  invalid_backend : Addr → Bytes → PolicyError

-- A backend that `newPolicy` refuses.
abbrev pub bad_backend : AddrPort → Bool
bad_backend b = not (is_valid b.addr) || nat_beq b.port 0 || is_unspecified b.addr

-- The loop of `newPolicy` over one peer's allow map. A Go map holds a key once, so the order in which
-- the copy is filled does not matter.
unfoldable pub copy_allow : Addr → Allow → Result PolicyError Allow
copy_allow ip [] = ok []
copy_allow ip ((name, backend) ∷ rest) = do
  fail_if (not (valid_service_name name)) (invalid_service_name ip)
  fail_if (bad_backend backend) (invalid_backend ip name)
  copied ← copy_allow ip rest
  ok (insert name backend copied)

-- The body of the loop of `newPolicy` over the peers.
unfoldable pub add_peer :
    PeerPolicy → List (Addr × Allow) → Result PolicyError (List (Addr × Allow))
add_peer p m = do
  fail_if (not (is_valid p.tunnel_ip)) invalid_tunnel_ip
  fail_if (is_unspecified (unmap p.tunnel_ip)) (unspecified_tunnel_ip (unmap p.tunnel_ip))
  fail_if (has_key (unmap p.tunnel_ip) m) (duplicate_tunnel_ip (unmap p.tunnel_ip))
  allow ← copy_allow (unmap p.tunnel_ip) p.allow
  ok (insert (unmap p.tunnel_ip) allow m)

unfoldable pub add_peers :
    List PeerPolicy → List (Addr × Allow) → Result PolicyError (List (Addr × Allow))
add_peers [] m = ok m
add_peers (p ∷ ps) m = do m' ← add_peer p m; add_peers ps m'

-- `newPolicy`
unfoldable pub new_policy : List PeerPolicy → Result PolicyError Policy
new_policy peers = do m ← add_peers peers []; ok (record { peers = m })

-- `policy.Resolve`; `none` is its `(netip.AddrPort{}, false)`.
unfoldable pub resolve : Policy → Addr → Bytes → Option AddrPort
resolve p ip service = elim (lookup (unmap ip) p.peers) [
  | none ↦ none
  | some allow ↦ lookup service allow
]
