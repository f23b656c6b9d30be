-- ===== src/Config/Addresses.antt =====
-- config.go: the address plan of 10.99.0.0/24.
use gocloak.Base.{
  ℕ, ◌+◌, ◌*◌, ◌%◌, ◌^◌, ◌≤◌, ◌≡◌, ◌↔◌, refl, true, false, Bytes, arith, ok, Option-cases, inl, inr,
}
use gocloak.Config.{
  Parsers, tunnel_subnet, prefix_contains, masked, subnet_broadcast, parse_tunnel_ip,
}
use gocloak.Config.Peers.{check_host}
use gocloak.Net.{Addr, invalid, v4, v6, unmap, unmap-unmap, is_valid, is_unspecified, addr_beq}

-- 10.99.0.0
abbrev pub subnet_base : ℕ
subnet_base = 10 * 2 ^ 24 + 99 * 2 ^ 16

-- One of 10.99.0.2 to 10.99.0.254.
abbrev pub IsHost : Addr → Type 0
IsHost a = (n : ℕ) × (a ≡ v4 (subnet_base + n)) × (2 ≤ n) × (n ≤ 254)

broadcast_is : subnet_broadcast tunnel_subnet ≡ v4 (subnet_base + 255)
unfolding subnet_broadcast
broadcast_is = refl

masked_is : masked tunnel_subnet ≡ subnet_base
unfolding masked
masked_is = refl

-- The checks of `validatePeer` on a tunnel address pass exactly for the host addresses 10.99.0.2 to
-- 10.99.0.254: the network, the broadcast and the server address are refused, and so is every address
-- that is not IPv4.
pub check_host_iff : (a : Addr) → (check_host a ≡ ok tt) ↔ IsHost a
unfolding check_host prefix_contains addr_beq
check_host_iff invalid = ((λ h. cc), λ h. cc h.1)
check_host_iff (v6 n z) = ((λ h. cc), λ h. cc h.1)
check_host_iff (v4 m) = (to, from)
  where
    to : check_host (v4 m) ≡ ok tt → IsHost (v4 m)
    to h = (
      m % 256,
      ground (arith, broadcast_is, masked_is),
      ground (arith, broadcast_is, masked_is),
      ground (arith, broadcast_is, masked_is),
    )

    from : IsHost (v4 m) → check_host (v4 m) ≡ ok tt
    from (n, e, lo, hi) = ground (arith, broadcast_is, masked_is)

-- A parsed tunnel address is in its plain form, so its spelling in the file does not matter.
pub parse_tunnel_ip-unmap :
    (lib : Parsers) (s : Bytes) (a : Addr)
    → parse_tunnel_ip lib s ≡ ok a
    → (unmap a ≡ a) × (is_valid a ≡ true) × (is_unspecified a ≡ false)
unfolding parse_tunnel_ip
parse_tunnel_ip-unmap lib s a h = elim (Option-cases (lib.parse_addr s)) [
  | inl e ↦ absurd (ground arith)
  | inr (b, e) ↦ (ground (arith, unmap-unmap b), ground arith, ground arith)
]
