-- ===== src/Server/Apply/Simulated.antt =====
-- server.go, `applyDiff`: the device's peers follow the peer list from reload to reload.
use gocloak.Base.{
  ◌≡◌, refl, Bool, true, false, ◌&&◌, Bytes, bytes_beq, bytes_beq_iff, List, [], ◌∷◌, Option, none,
  some, arith, All,
}
use gocloak.Config.Diff.Keys.{
  find, DistinctKeys, diff_peers-All-prev, diff_peers-All-next, diff_peers_exact,
}
use gocloak.Config.Diff.{diff_peers}
use gocloak.Config.Peers.{PeerConfig}
use gocloak.Device.{Texts, Wireguard}
use gocloak.Secret.{SecretResolver, Host}
use gocloak.Server.Apply.Table.{Uapi, text_hex, has_hex, names_key, apply_diff-has_peer}
use gocloak.Server.Apply.{Cache, apply_diff}

-- Every entry whose key is `k` on the device spells it `t`.
abbrev pub IsSpelt : Texts → Bytes → Bytes → PeerConfig → Type 0
IsSpelt lib k t p = has_hex lib k p ≡ true → p.public_key ≡ t

abbrev pub found : Option PeerConfig → Bool
found none = false
found (some _) = true

pub has_hex-spelt :
    (lib : Texts) (k t : Bytes) (p : PeerConfig)
    → IsSpelt lib k t p
    → has_hex lib k p ≡ (text_hex lib k t && bytes_beq p.public_key t)
has_hex-spelt lib k t p h = split (bytes_beq p.public_key t) refl
  where
    split : (b : Bool) → bytes_beq p.public_key t ≡ b → has_hex lib k p ≡ (text_hex lib k t && b)
    split true q =
        let same : p.public_key ≡ t = (bytes_beq_iff p.public_key t).0 q in rw same (ground arith)
    split false q = ground (arith, h, bytes_beq_iff p.public_key t)

pub names_key-find :
    (lib : Texts) (k t : Bytes) (ps : List PeerConfig)
    → All (IsSpelt lib k t) ps
    → names_key lib k ps ≡ (text_hex lib k t && found (find t ps))
unfolding find
names_key-find lib k t [] h = ground arith
names_key-find lib k t (p ∷ ps) (h, hs) =
    ground (arith, has_hex-spelt lib k t p h, names_key-find lib k t ps hs)

-- The peer lists of two reloads and a device that keeps to its documented interface: if before the reload
-- the device has a peer under a key exactly if an entry of the old list has the key, and applying the
-- diff reports no error, then afterwards it has one exactly if an entry of the new list has the key. Each
-- list spells a public key once, and the entries of both that have this key on the device spell it alike.
pub apply_diff-next {ℓ} :
    {W : Type ℓ} (lib : Texts) (dev : Wireguard W) (u : Uapi lib dev) (h : Host)
    (external : Option SecretResolver) (prev next : List PeerConfig) (cache : Cache) (w : W)
    (k t : Bytes)
    → DistinctKeys prev
    → DistinctKeys next
    → All (IsSpelt lib k t) prev
    → All (IsSpelt lib k t) next
    → u.has_peer w k ≡ names_key lib k prev
    → let after = apply_diff lib dev h external (diff_peers prev next) cache w in
      after.errors ≡ [] → u.has_peer after.tunnel k ≡ names_key lib k next
apply_diff-next lib dev u h external prev next cache w k t dp dn sp sn before e =
    let removed = diff_peers-All-prev (IsSpelt lib k t) prev next sp in
    let (added, _) = diff_peers-All-next (IsSpelt lib k t) prev next sn in
    let (at_added, at_removed, _) = diff_peers_exact prev next t dp dn in
    ground (
      arith,
      apply_diff-has_peer lib dev u k h external (diff_peers prev next) cache w e,
      names_key-find lib k t prev sp,
      names_key-find lib k t next sn,
      names_key-find lib k t _ removed,
      names_key-find lib k t _ added,
    )
