-- ===== src/Server/Apply/Table.antt =====
-- server.go, `applyDiff`: the device's peers after a diff that is applied without an error.
use gocloak.Base.{
  ◌≡◌, inl, inr, Bool, true, false, not, ◌||◌, ◌&&◌, Bytes, bytes_beq, List, [], ◌∷◌, ◌++◌, Option,
  none, arith, Result, ok, err, Result-cases, Option-cases,
}
use gocloak.Config.Diff.{PeerDiff}
use gocloak.Config.Peers.{PeerConfig}
use gocloak.Device.{
  Texts, Wireguard, DevicePeer, hex, key_to_hex, ipc_config, settings, public_key_line,
  update_only_line, removal, set_block, apply_device_peer, remove_peer,
}
use gocloak.Secret.{SecretError, SecretResolver, Host}
use gocloak.Server.Apply.{
  Cache, Applied, ApplyError, revoke_failed, peer_failed, device_peer, resolve_secret, revoke,
  apply_resolved, apply_peer, revoke_all, apply_all, apply_diff,
}

-- What wireguard-go's cross-platform userspace interface documents of a configuration block that it
-- accepts: `remove` takes the peer out, a block without `update_only` creates the peer where it is
-- missing, one with it does not, and no block touches the presence of another peer.
pub record Uapi {ℓ} {W : Type ℓ} (lib : Texts) (dev : Wireguard W) : Type ℓ where
  pub has_peer : W → Bytes → Bool
  pub removes :
      (raw : Bytes) (w : W) (k : Bytes)
      → (dev.ipc_set (removal (hex raw)) w).1 ≡ false
      → has_peer (dev.ipc_set (removal (hex raw)) w).0 k
        ≡ (has_peer w k && not (bytes_beq (hex raw) k))
  pub creates :
      (raw psk : Bytes) (p : DevicePeer) (w : W) (k : Bytes)
      → let text = public_key_line (hex raw) ++ settings lib (hex psk) p in
        (dev.ipc_set text w).1 ≡ false
        → has_peer (dev.ipc_set text w).0 k ≡ (has_peer w k || bytes_beq (hex raw) k)
  pub updates :
      (raw psk : Bytes) (p : DevicePeer) (w : W) (k : Bytes)
      → let text = public_key_line (hex raw) ++ (update_only_line ++ settings lib (hex psk) p) in
        (dev.ipc_set text w).1 ≡ false → has_peer (dev.ipc_set text w).0 k ≡ has_peer w k

-- The key of this text is `k`, in the device's spelling.
abbrev pub text_hex : Texts → Bytes → Bytes → Bool
text_hex lib k t = elim (key_to_hex lib t) [ err _ ↦ false | ok j ↦ bytes_beq j k ]

-- The public key of an entry is this one.
abbrev pub has_hex : Texts → Bytes → PeerConfig → Bool
has_hex lib k p = text_hex lib k p.public_key

abbrev pub names_key : Texts → Bytes → List PeerConfig → Bool
names_key lib k [] = false
names_key lib k (p ∷ ps) = has_hex lib k p || names_key lib k ps

pub key_to_hex-hex :
    (lib : Texts) (b64 k : Bytes) → key_to_hex lib b64 ≡ ok k → (raw : Bytes) × (k ≡ hex raw)
unfolding key_to_hex
key_to_hex-hex lib b64 k h = elim (Option-cases (lib.decode_base64 (lib.trim_space b64))) [
  | inl e ↦ absurd (ground arith)
  | inr (raw, e) ↦ (raw, ground arith)
]

pub snoc-not_nil : (es : List ApplyError) (e : ApplyError) → (es ++ (e ∷ [])) ≡ [] → ⊥
snoc-not_nil [] e h = absurd (ground arith)
snoc-not_nil (x ∷ es) e h = absurd (ground arith)

module _ {ℓ} {W : Type ℓ} (lib : Texts) (dev : Wireguard W) (u : Uapi lib dev) (k : Bytes) where
  remove_peer-has_peer :
      (p : PeerConfig) (w : W)
      → (remove_peer lib dev p.public_key w).1 ≡ none
      → u.has_peer (remove_peer lib dev p.public_key w).0 k
        ≡ (u.has_peer w k && not (has_hex lib k p))
  unfolding remove_peer set_block
  remove_peer-has_peer p w h = elim (Result-cases (key_to_hex lib p.public_key)) [
    | inl (j, e) ↦
        let (raw, q) = key_to_hex-hex lib p.public_key j e in ground (arith, u.removes raw w k)
    | inr (x, e) ↦ absurd (ground arith)
  ]

  pub apply_device_peer-has_peer :
      (p : DevicePeer) (update_only : Bool) (w : W)
      → let after = apply_device_peer lib dev p update_only w in
        after.1 ≡ none
        → u.has_peer after.0 k
          ≡ (u.has_peer w k || (not update_only && text_hex lib k p.public_key))
  unfolding apply_device_peer set_block ipc_config
  apply_device_peer-has_peer p update_only w h = elim (Result-cases (key_to_hex lib p.public_key)) [
    | inl (j, e) ↦ elim (Result-cases (key_to_hex lib p.preshared_key)) [
      | inl (s, f) ↦
          let (raw, q) = key_to_hex-hex lib p.public_key j e in
          let (raw_psk, r) = key_to_hex-hex lib p.preshared_key s f in
          ground (arith, u.creates raw raw_psk p w k, u.updates raw raw_psk p w k)
      | inr (x, f) ↦ absurd (ground arith)
    ]
    | inr (x, e) ↦ absurd (ground arith)
  ]

  module _ (h : Host) (external : Option SecretResolver) where
    pub revoke-has_peer :
        (p : PeerConfig) (a : Applied W)
        → (revoke lib dev h external p a).errors ≡ []
        → (a.errors ≡ [])
          × (u.has_peer (revoke lib dev h external p a).tunnel k
              ≡ (u.has_peer a.tunnel k && not (has_hex lib k p)))
    unfolding revoke
    revoke-has_peer p a e = elim (Option-cases (remove_peer lib dev p.public_key a.tunnel).1) [
      | inl none_yet ↦ (ground arith, ground (arith, remove_peer-has_peer p a.tunnel))
      | inr (x, failed) ↦ absurd (ground (arith, snoc-not_nil a.errors (revoke_failed p.name x)))
    ]

    pub apply_peer-has_peer :
        (update_only : Bool) (p : PeerConfig) (a : Applied W)
        → (apply_peer lib dev h external update_only p a).errors ≡ []
        → (a.errors ≡ [])
          × (u.has_peer (apply_peer lib dev h external update_only p a).tunnel k
              ≡ (u.has_peer a.tunnel k || (not update_only && has_hex lib k p)))
    unfolding apply_peer apply_resolved
    apply_peer-has_peer update_only p a e = split (resolve_secret h external p.psk a.cache) e
      where
        split :
            (r : Cache × Result SecretError Bytes)
            → (apply_resolved lib dev h external p update_only r a).errors ≡ []
            → (a.errors ≡ [])
              × (u.has_peer (apply_resolved lib dev h external p update_only r a).tunnel k
                  ≡ (u.has_peer a.tunnel k || (not update_only && has_hex lib k p)))
        split (cache, err x) e = absurd (snoc-not_nil a.errors _ e)
        split (cache, ok psk) e =
            elim (Option-cases
              (apply_device_peer lib dev (device_peer p psk) update_only a.tunnel).1) [
                | inl none_yet ↦ (
                  ground arith,
                  ground
                      (arith, apply_device_peer-has_peer (device_peer p psk) update_only a.tunnel),
                )
                | inr (x, failed) ↦
                    absurd (ground (arith, snoc-not_nil a.errors (peer_failed p.name x)))
              ]

    pub revoke_all-has_peer :
        (ps : List PeerConfig) (a : Applied W)
        → (revoke_all lib dev h external ps a).errors ≡ []
        → (a.errors ≡ [])
          × (u.has_peer (revoke_all lib dev h external ps a).tunnel k
              ≡ (u.has_peer a.tunnel k && not (names_key lib k ps)))
    unfolding revoke_all
    revoke_all-has_peer [] a e = (e, ground arith)
    revoke_all-has_peer (p ∷ ps) a e =
        let (e1, later) = revoke_all-has_peer ps (revoke lib dev h external p a) e in
        let (e2, first) = revoke-has_peer p a e1 in (e2, ground arith)

    pub apply_all-has_peer :
        (update_only : Bool) (ps : List PeerConfig) (a : Applied W)
        → (apply_all lib dev h external update_only ps a).errors ≡ []
        → (a.errors ≡ [])
          × (u.has_peer (apply_all lib dev h external update_only ps a).tunnel k
              ≡ (u.has_peer a.tunnel k || (not update_only && names_key lib k ps)))
    unfolding apply_all
    apply_all-has_peer update_only [] a e = (e, ground arith)
    apply_all-has_peer update_only (p ∷ ps) a e =
        let (e1, later) =
          apply_all-has_peer update_only ps (apply_peer lib dev h external update_only p a) e in
        let (e2, first) = apply_peer-has_peer update_only p a e1 in (e2, ground arith)

    -- On a device that keeps to its documented interface: if `applyDiff` reports no error, a key has a peer
    -- on the device afterwards exactly if an added entry has this key, or the device had it before and no
    -- removed entry has it.
    pub apply_diff-has_peer :
        (d : PeerDiff) (cache : Cache) (w : W)
        → (apply_diff lib dev h external d cache w).errors ≡ []
        → u.has_peer (apply_diff lib dev h external d cache w).tunnel k
          ≡ ((u.has_peer w k && not (names_key lib k d.removed)) || names_key lib k d.added)
    unfolding apply_diff
    apply_diff-has_peer d cache w e =
        let start : Applied W = record { cache = cache; tunnel = w; errors = [] } in
        let (e1, changed) = apply_all-has_peer true d.changed _ e in
        let (e2, added) = apply_all-has_peer false d.added _ e1 in
        let (e3, removed) = revoke_all-has_peer d.removed start e2 in ground arith
