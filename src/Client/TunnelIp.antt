-- ===== src/Client/TunnelIp.antt =====
-- client.go, `clientTunnelIP`: the client and the peers file agree on the addresses of peers.
use gocloak.Base.{◌≡◌, ◌↔◌, refl, true, arith, ok}
use gocloak.Client.{client_tunnel_ip}
use gocloak.Config.Addresses.{IsHost, check_host_iff}
use gocloak.Config.Peers.{check_host}
use gocloak.Net.{Addr, invalid, v4, v6, unmap, is_valid}

client_tunnel_ip-check_host :
    (a b : Addr)
    → (client_tunnel_ip a ≡ ok b)
      ↔ ((b ≡ unmap a) × (check_host (unmap a) ≡ ok tt) × (is_valid a ≡ true))
unfolding client_tunnel_ip check_host
client_tunnel_ip-check_host a b = ground arith

host_is_valid : (a : Addr) → IsHost (unmap a) → is_valid a ≡ true
unfolding unmap
host_is_valid invalid h = cc h.1
host_is_valid (v4 n) h = refl
host_is_valid (v6 n z) h = refl

-- `clientTunnelIP` accepts an address exactly if its plain form is one of 10.99.0.2 to 10.99.0.254, and it
-- returns this plain form. These are the addresses that the peers file accepts for a peer.
pub client_tunnel_ip_iff :
    (a b : Addr) → (client_tunnel_ip a ≡ ok b) ↔ ((b ≡ unmap a) × IsHost (unmap a))
client_tunnel_ip_iff a b = (
  λ h.
      let (same, host, valid) = (client_tunnel_ip-check_host a b).0 h in
      (same, (check_host_iff (unmap a)).0 host),
  λ (same, host).
      (client_tunnel_ip-check_host a b).1
        (same, (check_host_iff (unmap a)).1 host, host_is_valid a host),
)
