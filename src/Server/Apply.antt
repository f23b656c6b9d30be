-- ===== src/Server/Apply.antt =====
-- server.go: a reload applied to the live device, with the cache of resolved secrets.
pub mod Table
pub mod Simulated
pub mod Secrets
pub mod Routes
use gocloak.Base.{
  ℕ, Bool, true, false, not, ◌||◌, Bytes, bytes_eq, bytes_beq, List, [], ◌∷◌, ◌++◌, map, Option,
  none, some, Result, ok, err, lookup, insert, contains, if◌then◌else◌,
}
use gocloak.Config.Diff.{PeerDiff}
use gocloak.Config.Peers.{PeerConfig}
use gocloak.Device.{Texts, Wireguard, DevicePeer, DeviceError, remove_peer, apply_device_peer}
use gocloak.Net.{AddrPort, invalid}
use gocloak.Secret.{SecretRef, SecretError, SecretResolver, Host, resolve_secret_ref}

-- `pskCache`
abbrev pub Cache : Type 0
Cache = List (SecretRef × Bytes)

pub data ApplyError : Type 0 where
  revoke_failed : Bytes → DeviceError → ApplyError
  psk_failed : Bytes → SecretError → ApplyError
  peer_failed : Bytes → DeviceError → ApplyError

-- The cache, the device, and the errors so far, in order.
pub record Applied {ℓ} (W : Type ℓ) : Type ℓ where
  pub cache : Cache
  pub tunnel : W
  pub errors : List ApplyError

abbrev noted : Option ApplyError → List ApplyError → List ApplyError
noted none es = es
noted (some e) es = es ++ (e ∷ [])

abbrev failure : {E : Type 0} → (E → ApplyError) → Option E → Option ApplyError
failure f none = none
failure f (some e) = some (f e)

abbrev caught : SecretRef → Result SecretError Bytes → Cache → Cache × Result SecretError Bytes
caught ref (ok value) cache = (insert ref value cache, ok value)
caught ref (err e) cache = (cache, err e)

-- `resolveSecret`
unfoldable pub resolve_secret :
    Host → Option SecretResolver → SecretRef → Cache → Cache × Result SecretError Bytes
resolve_secret h external ref cache = elim (lookup ref cache) [
  | some value ↦ (cache, ok value)
  | none ↦ caught ref (resolve_secret_ref h external ref) cache
]

-- `pruneSecretCache`: what is neither the server's own reference nor one of the peer list goes.
unfoldable pub prune_secret_cache : List SecretRef → Cache → Cache
prune_secret_cache in_use [] = []
prune_secret_cache in_use ((ref, value) ∷ cache) =
    let rest = prune_secret_cache in_use cache in
    if contains in_use ref then (ref, value) ∷ rest else rest

abbrev pub references : SecretRef → List PeerConfig → List SecretRef
references private_key peers = private_key ∷ map (λ (p : PeerConfig). p.psk) peers

abbrev pub device_peer : PeerConfig → Bytes → DevicePeer
device_peer p psk = record {
  public_key = p.public_key;
  preshared_key = psk;
  allowed_ip = p.tunnel_ip;
  endpoint = record { addr = invalid; port = 0 };
}

module _ {ℓ} {W : Type ℓ} (lib : Texts) (dev : Wireguard W) (h : Host)
    (external : Option SecretResolver) where
  -- One round of the first loop of `applyDiff`.
  unfoldable pub revoke : PeerConfig → Applied W → Applied W
  revoke p a =
      let (w, e) = remove_peer lib dev p.public_key a.tunnel in
      record a { tunnel = w; errors = noted (failure (revoke_failed p.name) e) a.errors }

  -- `Server.applyPeer` behind the resolution of the PSK.
  unfoldable pub apply_resolved :
      PeerConfig → Bool → Cache × Result SecretError Bytes → Applied W → Applied W
  apply_resolved p update_only (cache, err e) a = record a {
    cache = cache;
    errors = noted (some (psk_failed p.name e)) a.errors;
  }
  apply_resolved p update_only (cache, ok psk) a =
      let (w, e) = apply_device_peer lib dev (device_peer p psk) update_only a.tunnel in
      record { cache = cache; tunnel = w; errors = noted (failure (peer_failed p.name) e) a.errors }

  -- `Server.applyPeer`, as the other loops call it.
  unfoldable pub apply_peer : Bool → PeerConfig → Applied W → Applied W
  apply_peer update_only p a =
      apply_resolved p update_only (resolve_secret h external p.psk a.cache) a

  unfoldable pub revoke_all : List PeerConfig → Applied W → Applied W
  revoke_all [] a = a
  revoke_all (p ∷ ps) a = revoke_all ps (revoke p a)

  unfoldable pub apply_all : Bool → List PeerConfig → Applied W → Applied W
  apply_all update_only [] a = a
  apply_all update_only (p ∷ ps) a = apply_all update_only ps (apply_peer update_only p a)

  -- `applyDiff` on a device that exists.
  unfoldable pub apply_diff : PeerDiff → Cache → W → Applied W
  apply_diff d cache w = apply_all true d.changed (
      apply_all false d.added
        (revoke_all d.removed (record { cache = cache; tunnel = w; errors = [] })))
