-- ===== src/Tests/Swapping.antt =====
-- server.go, `applyDiff`, on a device with routes: two peers swap their addresses in one reload.
use gocloak.Base.{
  ◌≡◌, refl, ◌&&◌, ◌||◌, Bytes, List, [], ◌∷◌, codes, arith, bytes_beq, none, All, index_byte,
  lookup, insert, contains,
}
use gocloak.Config.{prefix_contains}
use gocloak.Device.{apply_device_peer, set_block, ipc_config, key_to_hex, hex}
use gocloak.Config.Diff.{
  diff_peers, by_key, diff_next, diff_prev, note_next, peer_equal, maps_equal,
}
use gocloak.Config.Peers.{PeerConfig}
use gocloak.Server.Apply.Routes.Followed.{apply_diff-routed}
use gocloak.Server.Apply.{
  Applied, apply_diff, apply_all, revoke_all, apply_peer, apply_resolved, resolve_secret,
}
use gocloak.Secret.{
  resolve_secret_ref, parse_secret_ref, split_ref, valid_scheme_name, valid_scheme_bytes,
  resolve_env,
}
use gocloak.Config.Peers.Loaded.{AllApart}
use gocloak.Server.Apply.Simulated.{IsSpelt}
use gocloak.Tests.Data.{zeros, laptop, laptop_peer}
use gocloak.Tests.Running.{host}
use gocloak.Net.{Addr, from4, addr_beq, addr_port_beq}
use gocloak.Server.Apply.Routes.{routes}
use gocloak.Server.Apply.Table.{names_key}
use gocloak.Tests.Apply.{key, texts}
use gocloak.Tests.Routing.{Tunnel, router, interface, cryptokey}

-- Two peers that swap their addresses.
abbrev phone : Addr
phone = from4 10 99 0 3

abbrev at_address : Bytes → Bytes → Addr → PeerConfig
at_address name public_key ip = record laptop_peer {
  name = name;
  public_key = public_key;
  tunnel_ip = ip;
}

abbrev swapped_from : List PeerConfig
swapped_from =
    at_address (codes "laptop") (codes "AAAA") laptop
    ∷ at_address (codes "phone") (codes "BBBB") phone
    ∷ []

abbrev swapped_to : List PeerConfig
swapped_to =
    at_address (codes "laptop") (codes "AAAA") phone
    ∷ at_address (codes "phone") (codes "BBBB") laptop
    ∷ []

abbrev other_key : Bytes
other_key = hex (1 ∷ zeros 31)

abbrev swapping : Tunnel
swapping = record {
  peers = λ k. bytes_beq key k || bytes_beq other_key k;
  table = λ ip k.
      (bytes_beq key k && addr_beq laptop ip) || (bytes_beq other_key k && addr_beq phone ip);
}

abbrev swap : Applied Tunnel
swap = apply_diff texts router host none (diff_peers swapped_from swapped_to) [] swapping

swap_succeeds : swap.errors ≡ []
unfolding apply_diff apply_all revoke_all apply_peer apply_resolved resolve_secret
    resolve_secret_ref parse_secret_ref split_ref index_byte valid_scheme_name valid_scheme_bytes
    resolve_env bytes_beq apply_device_peer set_block ipc_config key_to_hex lookup insert contains
    addr_port_beq addr_beq prefix_contains diff_peers by_key diff_next diff_prev note_next
    peer_equal maps_equal
swap_succeeds = refl

apart_from : AllApart swapped_from
apart_from = (
  (record { names = λ e. ground arith; keys = λ e. ground arith; ips = λ e. ground arith }, tt),
  (tt, tt),
)

apart_to : AllApart swapped_to
apart_to = (
  (record { names = λ e. ground arith; keys = λ e. ground arith; ips = λ e. ground arith }, tt),
  (tt, tt),
)

spelt_from : All (IsSpelt texts key (codes "AAAA")) swapped_from
unfolding key_to_hex bytes_beq hex
spelt_from = ((λ h. refl), ((λ h. cc), tt))

spelt_to : All (IsSpelt texts key (codes "AAAA")) swapped_to
unfolding key_to_hex bytes_beq hex
spelt_to = ((λ h. refl), ((λ h. cc), tt))

has_laptop : interface.has_peer swapping key ≡ names_key texts key swapped_from
unfolding interface key_to_hex bytes_beq hex
has_laptop = refl

not_routed : cryptokey.routed swapping phone key ≡ routes texts key phone swapped_from
unfolding cryptokey key_to_hex bytes_beq hex addr_beq
not_routed = refl

apply_diff-routed_example :
    cryptokey.routed swap.tunnel phone key ≡ routes texts key phone swapped_to
apply_diff-routed_example =
    apply_diff-routed texts router interface cryptokey host none swapped_from swapped_to [] swapping
      key (codes "AAAA") phone apart_from apart_to spelt_from spelt_to has_laptop not_routed
      swap_succeeds
