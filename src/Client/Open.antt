-- ===== src/Client/Open.antt =====
-- client.go, `newClient`: from a configuration to a client with a running device.
pub mod Pinned
use gocloak.Base.{
  ℕ, suc, ◌-◌, Bool, true, false, Bytes, List, [], ◌∷◌, ◌++◌, Option, none, some, Result, ok, err,
  ◌>>=◌, map_err, pos,
}
use gocloak.Client.Dialing.{Client, new_client}
use gocloak.Client.{Names, ClientError, ClientConfig, ClientPlan, plan_client}
use gocloak.Config.{Parsers, server_tunnel_ip}
use gocloak.Device.Open.{Stack, OpenError, Deed, opens, closes, new_tunnel_device}
use gocloak.Device.{Texts, Wireguard, DeviceError, apply_device_peer}
use gocloak.Secret.{SecretError, SecretResolver, Host, resolve_secret_ref}

pub data NewClientError : Type 0 where
  bad_config : ClientError → NewClientError
  no_private_key : SecretError → NewClientError
  no_preshared_key : SecretError → NewClientError
  no_device : OpenError → NewClientError
  no_peer : DeviceError → NewClientError

-- What `newClient` has before it opens anything.
pub record Prepared : Type 0 where
  pub plan : ClientPlan
  pub private_key : Bytes
  pub psk : Bytes

-- How many devices are open after these deeds, from this many on.
abbrev pub still_open : ℕ → List Deed → ℕ
still_open n [] = n
still_open n (opens ∷ deeds) = still_open (suc n) deeds
still_open n (closes ∷ deeds) = still_open (n - 1) deeds

-- `newClient` up to the device.
unfoldable pub prepare :
    Parsers → Names → Host → Option SecretResolver → ClientConfig → Result NewClientError Prepared
prepare lib names h external cfg = do
  plan ← map_err bad_config (plan_client lib names cfg)
  private_key ← map_err no_private_key (resolve_secret_ref h external cfg.private_key)
  psk ← map_err no_preshared_key (resolve_secret_ref h external cfg.preshared_key)
  ok (record { plan = plan; private_key = private_key; psk = psk })

module _ {W : Type 0} (texts : Texts) (dev : Wireguard W) (stack : Stack W) where
  -- The end of `newClient`, from what `AddPeer` gives.
  unfoldable pub with_peer :
      ClientPlan → List Deed → W × Option DeviceError → Result NewClientError (Client W) × List Deed
  with_peer plan deeds (w, some e) = (err (no_peer e), deeds ++ (closes ∷ []))
  with_peer plan deeds (w, none) = (ok (new_client plan.addr w), deeds)

  -- From what `newTunnelDevice` gives.
  unfoldable pub with_device :
      ClientConfig
      → Prepared
      → Result OpenError W × List Deed
      → Result NewClientError (Client W) × List Deed
  with_device cfg p (err e, deeds) = (err (no_device e), deeds)
  with_device cfg p (ok w, deeds) = with_peer p.plan deeds (
      apply_device_peer texts dev
        (record {
          public_key = cfg.server_pub_key;
          preshared_key = p.psk;
          allowed_ip = server_tunnel_ip;
          endpoint = p.plan.addr;
        })
        false w)

  unfoldable pub with_prepared :
      ClientConfig → Result NewClientError Prepared → Result NewClientError (Client W) × List Deed
  with_prepared cfg (err e) = (err e, [])
  with_prepared cfg (ok p) = with_device cfg p (
      new_tunnel_device texts dev stack (record {
        tunnel_ip = p.plan.tunnel_ip;
        mtu = cfg.mtu;
        private_key = p.private_key;
        listen_port = pos 0;
      }))

  -- `newClient`, with everything done to devices.
  unfoldable pub open_client :
      Parsers
      → Names
      → Host
      → Option SecretResolver
      → ClientConfig
      → Result NewClientError (Client W) × List Deed
  open_client lib names h external cfg = with_prepared cfg (prepare lib names h external cfg)
