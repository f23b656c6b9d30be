-- ===== src/Device/Open.antt =====
-- device.go, `newTunnelDevice` and `Close`: what a device is built from, and what is left when a step fails.
use gocloak.Base.{
  Bool, true, false, not, ◌&&◌, Bytes, List, [], ◌∷◌, ◌++◌, Result, ok, err, ◌>>=◌, ◌>>◌, fail_if,
  map_err, codes, ℤ, is_negative, pos_part, nat_beq, if◌then◌else◌,
}
use gocloak.Config.Server.{outside, mtu_or_default}
use gocloak.Config.{tunnel_subnet, prefix_contains, min_mtu, max_mtu}
use gocloak.Device.{Texts, Wireguard, KeyError, key_to_hex, line}
use gocloak.Net.{Addr, is_valid}

-- `deviceOptions`, less the logging.
pub record DeviceOptions : Type 0 where
  pub tunnel_ip : Addr
  pub mtu : ℤ
  pub private_key : Bytes
  pub listen_port : ℤ

pub data OpenError : Type 0 where
  tunnel_ip_required : OpenError
  tunnel_ip_outside : OpenError
  bad_listen_port : ℤ → OpenError
  bad_mtu : ℤ → OpenError
  bad_private_key : KeyError → OpenError
  tun_failed : OpenError
  configure_failed : OpenError
  up_failed : OpenError

-- What the code calls for a device: whether `netstack.CreateNetTUN` fails, the device that
-- `device.NewDevice` makes, `Up`, which tells if it fails, and a port as `%d` prints it.
pub record Stack (W : Type 0) : Type 0 where
  pub tun_fails : Addr → ℤ → Bool
  pub new_device : W
  pub up : W → W × Bool
  pub port_text : ℤ → Bytes

-- What is done with devices, in order.
pub data Deed : Type 0 where
  opens closes : Deed

-- The checks of `newTunnelDevice`: the MTU and the key in the device's spelling.
unfoldable pub check_options : Texts → DeviceOptions → Result OpenError (ℤ × Bytes)
check_options lib o = do
  fail_if (not (is_valid o.tunnel_ip)) tunnel_ip_required
  fail_if (not (prefix_contains tunnel_subnet o.tunnel_ip)) tunnel_ip_outside
  fail_if (outside 0 65535 o.listen_port) (bad_listen_port o.listen_port)
  let mtu = mtu_or_default o.mtu
  fail_if (outside min_mtu max_mtu mtu) (bad_mtu mtu)
  key ← map_err bad_private_key (key_to_hex lib o.private_key)
  ok (mtu, key)

abbrev is_zero : ℤ → Bool
is_zero n = not (is_negative n) && nat_beq (pos_part n) 0

module _ {W : Type 0} (lib : Texts) (dev : Wireguard W) (stack : Stack W) where
  -- The text of the device's own configuration.
  unfoldable pub device_text : Bytes → ℤ → Bytes
  device_text key port =
      line (codes "private_key=") key
      ++ (if is_zero port then [] else line (codes "listen_port=") (stack.port_text port))

  -- The end of `newTunnelDevice`, from what `Up` gives.
  unfoldable pub brought_up : W × Bool → Result OpenError W × List Deed
  brought_up (w, true) = (err up_failed, opens ∷ closes ∷ [])
  brought_up (w, false) = (ok w, opens ∷ [])

  -- From what `IpcSet` gives.
  unfoldable pub configured : W × Bool → Result OpenError W × List Deed
  configured (w, true) = (err configure_failed, opens ∷ closes ∷ [])
  configured (w, false) = brought_up (stack.up w)

  -- From what the checks give.
  unfoldable pub build :
      DeviceOptions → Result OpenError (ℤ × Bytes) → Result OpenError W × List Deed
  build o (err e) = (err e, [])
  build o (ok (mtu, key)) =
      if stack.tun_fails o.tunnel_ip mtu
      then (err tun_failed, [])
      else configured (dev.ipc_set (device_text key o.listen_port) stack.new_device)

  -- `newTunnelDevice`
  unfoldable pub new_tunnel_device : DeviceOptions → Result OpenError W × List Deed
  new_tunnel_device o = build o (check_options lib o)
