-- ===== src/Net.antt =====
-- Package net/netip as the program uses it: an address is invalid (the zero `Addr`), an IPv4 address
-- by its 32 bits, or an IPv6 address by its 128 bits and its zone.
use gocloak.Base.{
  ℕ, ◌+◌, ◌*◌, ◌/◌, ◌%◌, ◌^◌, ◌≡◌, refl, ◌↔◌, Bool, true, false, ◌&&◌, ◌||◌, Bytes, [], arith,
  if◌then◌else◌, nat_beq, bytes_beq, bytes_beq_iff, Eq,
}

pub data Addr : Type 0 where
  invalid : Addr
  v4 : ℕ → Addr
  v6 : ℕ → Bytes → Addr

unfoldable pub addr_beq : Addr → Addr → Bool
addr_beq invalid invalid = true
addr_beq (v4 a) (v4 b) = nat_beq a b
addr_beq (v6 a z) (v6 b y) = nat_beq a b && bytes_beq z y
addr_beq _ _ = false

pub addr_beq_iff : (a b : Addr) → (addr_beq a b ≡ true) ↔ (a ≡ b)
unfolding addr_beq
addr_beq_iff (v4 a) (v4 b) = ground arith
addr_beq_iff (v6 a z) (v6 b y) = ground (arith, bytes_beq_iff z y)
addr_beq_iff _ _ = ground arith

instance abbrev pub addr_eq : Eq Addr
addr_eq = record { beq = addr_beq; beq_iff = addr_beq_iff }

-- `Addr.IsValid`
abbrev pub is_valid : Addr → Bool
is_valid invalid = false
is_valid _ = true

-- `Addr.IsUnspecified`: 0.0.0.0, or :: with no zone.
abbrev pub is_unspecified : Addr → Bool
is_unspecified a = addr_beq a (v4 0) || addr_beq a (v6 0 [])

-- `Addr.Unmap`: ::ffff:a.b.c.d becomes a.b.c.d, and its zone is dropped.
unfoldable pub unmap : Addr → Addr
unmap (v6 n z) = if nat_beq (n / 2 ^ 32) 0xffff then v4 (n % 2 ^ 32) else v6 n z
unmap a = a

pub unmap-unmap : (a : Addr) → unmap (unmap a) ≡ unmap a
unfolding unmap
unmap-unmap (v6 n z) = ground arith
unmap-unmap _ = refl

-- The address of four bytes, `netip.AddrFrom4`.
abbrev pub from4 : ℕ → ℕ → ℕ → ℕ → Addr
from4 a b c d = v4 (a * 2 ^ 24 + b * 2 ^ 16 + c * 2 ^ 8 + d)

pub record AddrPort : Type 0 where
  pub addr : Addr
  pub port : ℕ

unfoldable pub addr_port_beq : AddrPort → AddrPort → Bool
addr_port_beq a b = addr_beq a.addr b.addr && nat_beq a.port b.port

pub addr_port_beq_iff : (a b : AddrPort) → (addr_port_beq a b ≡ true) ↔ (a ≡ b)
unfolding addr_port_beq
addr_port_beq_iff a b = ground (arith, addr_beq_iff a.addr b.addr)

instance abbrev pub addr_port_eq : Eq AddrPort
addr_port_eq = record { beq = addr_port_beq; beq_iff = addr_port_beq_iff }

-- An IPv4 prefix: its address and its length.
pub record Prefix : Type 0 where
  pub base : ℕ
  pub bits : ℕ
