-- ===== src/Server/Remote.antt =====
-- server.go, `remoteTunnelIP`: the identity of a peer comes from the remote address of its connection.
use gocloak.Base.{◌≡◌, sym, Bytes, Option, none, some, Option-cases, inl, inr, arith}
use gocloak.Config.{Parsers}
use gocloak.Net.{Addr, unmap, unmap-unmap}

-- What `RemoteAddr` returns: nil, a `*net.TCPAddr` with its bytes, or another address with its text.
pub data RemoteAddr : Type 0 where
  absent : RemoteAddr
  tcp other : Bytes → RemoteAddr

module _ (lib : Parsers) (addr_from_slice : Bytes → Option Addr) where
  unfoldable pub remote_tunnel_ip : RemoteAddr → Option Addr
  remote_tunnel_ip absent = none
  remote_tunnel_ip (tcp ip) = elim (addr_from_slice ip) [ none ↦ none | some a ↦ some (unmap a) ]
  remote_tunnel_ip (other text) = elim (lib.parse_addr_port text) [
    | none ↦ none
    | some p ↦ some (unmap p.addr)
  ]

  -- An identity is in its plain form, so the limiters and the policy look it up as it is.
  remote_tunnel_ip-plain :
      (remote : RemoteAddr) (ip : Addr) → remote_tunnel_ip remote ≡ some ip → unmap ip ≡ ip
  unfolding remote_tunnel_ip
  remote_tunnel_ip-plain absent ip h = absurd (ground arith)
  remote_tunnel_ip-plain (tcp bytes) ip h = elim (Option-cases (addr_from_slice bytes)) [
    | inl e ↦ absurd (ground (arith, e))
    | inr (a, e) ↦ let plain : unmap a ≡ ip = ground (arith, e) in rw (sym plain) (unmap-unmap a)
  ]
  remote_tunnel_ip-plain (other text) ip h = elim (Option-cases (lib.parse_addr_port text)) [
    | inl e ↦ absurd (ground (arith, e))
    | inr (a, e) ↦
        let plain : unmap a.addr ≡ ip = ground (arith, e) in rw (sym plain) (unmap-unmap a.addr)
  ]

  -- Two spellings of one address are one identity.
  remote_tunnel_ip-one :
      (x y : Bytes) (a b : Addr)
      → addr_from_slice x ≡ some a
      → addr_from_slice y ≡ some b
      → unmap a ≡ unmap b
      → remote_tunnel_ip (tcp x) ≡ remote_tunnel_ip (tcp y)
  unfolding remote_tunnel_ip
  remote_tunnel_ip-one x y a b ha hb same = ground (arith, ha, hb, same)
