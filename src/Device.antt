-- ===== src/Device.antt =====
-- device.go: peers as blocks of wireguard-go's configuration text, and the calls that apply them.
pub mod Open
pub mod Close
use gocloak.Base.{
  ℕ, Bool, true, false, not, ◌&&◌, ◌||◌, Bytes, [], ◌∷◌, ◌++◌, Option, none, some, Result, ok, err,
  ◌>>=◌, ◌>>◌, fail_if, map_err, codes, length, nat_beq, if◌then◌else◌, ◌/◌, ◌%◌, ◌+◌, ◌-◌, ltb,
}
use gocloak.Config.{wg_key_len, tunnel_subnet, prefix_contains}
use gocloak.Net.{Addr, AddrPort, addr_port_beq, invalid, is_valid}
use gocloak.Secret.{is_empty}

-- Functions of the standard library that device.go calls: `strings.TrimSpace`,
-- `base64.StdEncoding.DecodeString`, and the text of an address and of an address with its port.
pub record Texts : Type 0 where
  pub trim_space : Bytes → Bytes
  pub decode_base64 : Bytes → Option Bytes
  pub addr_text : Addr → Bytes
  pub addr_port_text : AddrPort → Bytes

-- The userspace device: what `IpcSet` does to its state, and whether it reports an error.
pub record Wireguard {ℓ} (W : Type ℓ) : Type ℓ where
  pub ipc_set : Bytes → W → W × Bool

pub data KeyError : Type 0 where
  key_required : KeyError
  key_not_base64 : KeyError
  key_length : ℕ → KeyError

pub data DeviceError : Type 0 where
  bad_peer_key : KeyError → DeviceError
  bad_preshared_key : KeyError → DeviceError
  no_allowed_ip : DeviceError
  allowed_ip_outside : DeviceError
  bad_endpoint : DeviceError
  ipc_failed : DeviceError

-- `hex.EncodeToString`
abbrev hex_digit : ℕ → ℕ
hex_digit n = if ltb n 10 then b'0' + n else b'a' + (n - 10)

unfoldable pub hex : Bytes → Bytes
hex [] = []
hex (b ∷ bs) = hex_digit (b / 16) ∷ hex_digit (b % 16) ∷ hex bs

abbrev decoded : Option Bytes → Result KeyError Bytes
decoded none = err key_not_base64
decoded (some raw) = ok raw

-- `keyToHex`
unfoldable pub key_to_hex : Texts → Bytes → Result KeyError Bytes
key_to_hex lib b64 = do
  fail_if (is_empty (lib.trim_space b64)) key_required
  raw ← decoded (lib.decode_base64 (lib.trim_space b64))
  fail_if (not (nat_beq (length raw) wg_key_len)) (key_length (length raw))
  ok (hex raw)

-- `devicePeer`
pub record DevicePeer : Type 0 where
  pub public_key : Bytes
  pub preshared_key : Bytes
  pub allowed_ip : Addr
  pub endpoint : AddrPort

abbrev pub newline : Bytes
newline = b'\n' ∷ []

abbrev pub line : Bytes → Bytes → Bytes
line key value = key ++ (value ++ newline)

abbrev pub keepalive_interval : Bytes
keepalive_interval = codes "25"

abbrev usable_endpoint : AddrPort → Bool
usable_endpoint e = not (not (is_valid e.addr) || nat_beq e.port 0)

-- `p.Endpoint != (netip.AddrPort{})`
abbrev has_endpoint : DevicePeer → Bool
has_endpoint p = not (addr_port_beq p.endpoint (record { addr = invalid; port = 0 }))

abbrev pub public_key_line : Bytes → Bytes
public_key_line pub_hex = line (codes "public_key=") pub_hex

abbrev pub update_only_line : Bytes
update_only_line = line (codes "update_only=true") []

-- What `ipcConfig` writes behind the key and the update_only flag.
unfoldable pub settings : Texts → Bytes → DevicePeer → Bytes
settings lib psk p =
    line (codes "preshared_key=") psk
    ++ ((if has_endpoint p then line (codes "endpoint=") (lib.addr_port_text p.endpoint) else [])
        ++ (line (codes "replace_allowed_ips=true") []
            ++ (line (codes "allowed_ip=") (lib.addr_text p.allowed_ip ++ codes "/32")
                ++ (if has_endpoint p
                    then line (codes "persistent_keepalive_interval=") keepalive_interval
                    else []))))

-- `ipcConfig`
unfoldable pub ipc_config : Texts → Bool → DevicePeer → Result DeviceError Bytes
ipc_config lib update_only p = do
  pub_hex ← map_err bad_peer_key (key_to_hex lib p.public_key)
  psk ← map_err bad_preshared_key (key_to_hex lib p.preshared_key)
  fail_if (not (is_valid p.allowed_ip)) no_allowed_ip
  fail_if (not (prefix_contains tunnel_subnet p.allowed_ip)) allowed_ip_outside
  fail_if (has_endpoint p && not (usable_endpoint p.endpoint)) bad_endpoint
  ok (
      public_key_line pub_hex
      ++ ((if update_only then update_only_line else []) ++ settings lib psk p))

-- The block of `RemovePeer`.
abbrev pub removal : Bytes → Bytes
removal pub_hex = public_key_line pub_hex ++ line (codes "remove=true") []

abbrev checked {ℓ} : {W : Type ℓ} → W × Bool → W × Option DeviceError
checked (w, true) = (w, some ipc_failed)
checked (w, false) = (w, none)

module _ {ℓ} {W : Type ℓ} (lib : Texts) (dev : Wireguard W) where
  -- One call of `IpcSet`, unless there is no text to set.
  unfoldable pub set_block : Result DeviceError Bytes → W → W × Option DeviceError
  set_block (err e) w = (w, some e)
  set_block (ok text) w = checked (dev.ipc_set text w)

  -- `tunnelDevice.applyPeer`: `AddPeer` with false, `UpdatePeer` with true.
  unfoldable pub apply_device_peer : DevicePeer → Bool → W → W × Option DeviceError
  apply_device_peer p update_only = set_block (ipc_config lib update_only p)

  -- `RemovePeer`
  unfoldable pub remove_peer : Bytes → W → W × Option DeviceError
  remove_peer public_key =
      set_block do pub_hex ← map_err bad_peer_key (key_to_hex lib public_key); ok (removal pub_hex)

  -- `SetPeerEndpoint`
  unfoldable pub set_peer_endpoint : Bytes → AddrPort → W → W × Option DeviceError
  set_peer_endpoint public_key endpoint = set_block do
    pub_hex ← map_err bad_peer_key (key_to_hex lib public_key)
    fail_if (not (usable_endpoint endpoint)) bad_endpoint
    ok (
        public_key_line pub_hex
        ++ (update_only_line ++ line (codes "endpoint=") (lib.addr_port_text endpoint)))
