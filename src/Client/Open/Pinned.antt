-- ===== src/Client/Open/Pinned.antt =====
-- client.go, `newClient`: a client has one peer, the server, and a failure leaves no device.
use gocloak.Base.{
  ◌≡◌, refl, Bool, true, false, Bytes, List, [], ◌∷◌, Option, none, some, Result, ok, err, arith,
  Result-cases, if-intro, inl, inr, ℤ,
}
use gocloak.Client.Dialing.{Client}
use gocloak.Client.Open.{
  NewClientError, Prepared, still_open, prepare, with_peer, with_device, with_prepared, open_client,
}
use gocloak.Client.{Names, ClientConfig, ClientPlan}
use gocloak.Config.{Parsers, server_tunnel_ip}
use gocloak.Device.Open.{
  Stack, DeviceOptions, OpenError, Deed, opens, check_options, device_text, brought_up, configured,
  build, new_tunnel_device,
}
use gocloak.Device.{Texts, Wireguard, DeviceError, DevicePeer, apply_device_peer}
use gocloak.Secret.{SecretResolver, Host}
use gocloak.Server.Apply.Table.{Uapi, text_hex, apply_device_peer-has_peer}

-- What the device documents: its own configuration gives a new device no peer, and neither does `Up`.
pub record Bare {W : Type 0} (lib : Texts) (dev : Wireguard W) (stack : Stack W) (u : Uapi lib dev)
    : Type 0 where
  pub configured :
      (key : Bytes) (port : ℤ) (k : Bytes)
      → u.has_peer (dev.ipc_set (device_text lib dev stack key port) stack.new_device).0 k ≡ false
  pub up : (w : W) (k : Bytes) → u.has_peer (stack.up w).0 k ≡ u.has_peer w k

module _ {W : Type 0} (lib : Texts) (dev : Wireguard W) (stack : Stack W) (u : Uapi lib dev)
    (bare : Bare lib dev stack u) (k : Bytes) where
  -- A failure leaves nothing open; a device that is handed out is the only one, and has no peer.
  abbrev pub NewDevice : Result OpenError W × List Deed → Type 0
  NewDevice (err e, deeds) = still_open 0 deeds ≡ 0
  NewDevice (ok w, deeds) = (deeds ≡ opens ∷ []) × (u.has_peer w k ≡ false)

  new_tunnel_device-NewDevice : (o : DeviceOptions) → NewDevice (new_tunnel_device lib dev stack o)
  unfolding new_tunnel_device build
  new_tunnel_device-NewDevice o = elim (Result-cases (check_options lib o)) [
    | inr (x, e) ↦ rw e refl
    | inl ((mtu, key), e) ↦ rw e (
        if-intro NewDevice (stack.tun_fails o.tunnel_ip mtu) (λ fails. refl)
          (λ made.
            from_config (dev.ipc_set (device_text lib dev stack key o.listen_port) stack.new_device)
              (bare.configured key o.listen_port k)))
  ]
    where
      from_up : (r : W × Bool) → u.has_peer r.0 k ≡ false → NewDevice (brought_up lib dev stack r)
      from_up (w, true) h = unfold brought_up in refl
      from_up (w, false) h = unfold brought_up in (refl, h)

      from_config :
          (r : W × Bool) → u.has_peer r.0 k ≡ false → NewDevice (configured lib dev stack r)
      from_config (w, true) h = unfold configured in refl
      from_config (w, false) h =
          unfold configured in from_up (stack.up w) (ground (arith, bare.up w k))

  -- The same of a client: its device has exactly the peer with the pinned key.
  abbrev pub Pinned : Bytes → Result NewClientError (Client W) × List Deed → Type 0
  Pinned server_key (err e, deeds) = still_open 0 deeds ≡ 0
  Pinned server_key (ok c, deeds) =
      (deeds ≡ opens ∷ []) × (u.has_peer c.tunnel k ≡ text_hex lib k server_key)

  with_peer-Pinned :
      (plan : ClientPlan) (server_key : Bytes) (deeds : List Deed) (r : W × Option DeviceError)
      → deeds ≡ opens ∷ []
      → (r.1 ≡ none → u.has_peer r.0 k ≡ text_hex lib k server_key)
      → Pinned server_key (with_peer lib dev stack plan deeds r)
  unfolding with_peer
  with_peer-Pinned plan server_key deeds (w, some e) d h = rw d refl
  with_peer-Pinned plan server_key deeds (w, none) d h = (d, h refl)

  with_device-Pinned :
      (cfg : ClientConfig) (p : Prepared) (r : Result OpenError W × List Deed)
      → NewDevice r
      → Pinned cfg.server_pub_key (with_device lib dev stack cfg p r)
  unfolding with_device
  with_device-Pinned cfg p (err e, deeds) d = d
  with_device-Pinned cfg p (ok w, deeds) (d, none_yet) =
      let peer : DevicePeer = record {
        public_key = cfg.server_pub_key;
        preshared_key = p.psk;
        allowed_ip = server_tunnel_ip;
        endpoint = p.plan.addr;
      } in
      with_peer-Pinned p.plan cfg.server_pub_key deeds (apply_device_peer lib dev peer false w) d
        (λ e. ground (arith, apply_device_peer-has_peer lib dev u k peer false w e))

  -- `NewClient` over a device that keeps to its documented interface. If it fails, it has closed every
  -- device that it opened. If it succeeds, it has opened one device and left it open, and this device has a
  -- peer under a key exactly if it is the key of the configuration: the server, and nobody else.
  pub open_client-Pinned :
      (parsers : Parsers) (names : Names) (h : Host) (external : Option SecretResolver)
      (cfg : ClientConfig)
      → Pinned cfg.server_pub_key (open_client lib dev stack parsers names h external cfg)
  unfolding open_client with_prepared
  open_client-Pinned parsers names h external cfg =
      elim (Result-cases (prepare parsers names h external cfg)) [
        | inr (x, e) ↦ rw e refl
        | inl (p, e) ↦ rw e (with_device-Pinned cfg p _ (new_tunnel_device-NewDevice _))
      ]
