-- ===== src/Server/Apply/Routes/Followed.antt =====
-- server.go, `applyDiff`: the device's routes follow the peer list from reload to reload.
use gocloak.Base.{
  ◌≡◌, refl, ap, ◌⊎◌, inl, inr, Bool, true, false, not, ◌&&◌, Bytes, List, [], ◌∷◌, Option, none,
  some, arith, All, Result, ok, err, Bool-cases, Option-cases,
}
use gocloak.Config.Diff.Keys.{
  find, added_at, removed_at, changed_at, diff_peers-All-prev, diff_peers-All-next,
  diff_peers_exact,
}
use gocloak.Config.Diff.{diff_peers, peer_equal}
use gocloak.Config.Peers.Loaded.{AllApart, DistinctKeys-AllApart}
use gocloak.Config.Peers.{PeerConfig}
use gocloak.Device.{Texts, Wireguard, apply_device_peer, remove_peer}
use gocloak.Net.{Addr, addr_beq, addr_beq_iff}
use gocloak.Secret.{SecretError, SecretResolver, Host}
use gocloak.Server.Apply.Routes.{
  Cryptokey, routes, at, routes-find, Agrees, All-Agrees, remove_peer-routed,
  apply_device_peer-routed,
}
use gocloak.Server.Apply.Simulated.{IsSpelt, found, names_key-find}
use gocloak.Server.Apply.Table.{
  Uapi, has_hex, names_key, snoc-not_nil, revoke_all-has_peer, apply_all-has_peer,
  apply_peer-has_peer,
}
use gocloak.Server.Apply.{
  Cache, Applied, revoke_failed, peer_failed, device_peer, resolve_secret, revoke, apply_resolved,
  apply_peer, revoke_all, apply_all, apply_diff,
}

module _ {W : Type 0} (lib : Texts) (dev : Wireguard W) (u : Uapi lib dev) (c : Cryptokey lib dev u)
    (k : Bytes) (ip : Addr) (h : Host) (external : Option SecretResolver) where
  revoke-routed :
      (p : PeerConfig) (a : Applied W)
      → (revoke lib dev h external p a).errors ≡ []
      → c.routed (revoke lib dev h external p a).tunnel ip k
        ≡ (c.routed a.tunnel ip k && not (has_hex lib k p))
  unfolding revoke
  revoke-routed p a e = elim (Option-cases (remove_peer lib dev p.public_key a.tunnel).1) [
    | inl none_yet ↦ ground (arith, remove_peer-routed lib dev u c k ip p a.tunnel)
    | inr (x, failed) ↦ absurd (ground (arith, snoc-not_nil a.errors (revoke_failed p.name x)))
  ]

  pub apply_peer-routed :
      (update_only : Bool) (p : PeerConfig) (a : Applied W) (b : Bool)
      → Agrees lib k ip b p
      → (update_only ≡ true → has_hex lib k p ≡ true → u.has_peer a.tunnel k ≡ true)
      → (c.routed a.tunnel ip k ≡ b) ⊎ (has_hex lib k p ≡ true)
      → (apply_peer lib dev h external update_only p a).errors ≡ []
      → c.routed (apply_peer lib dev h external update_only p a).tunnel ip k ≡ b
  unfolding apply_peer apply_resolved
  apply_peer-routed update_only p a b agrees present before e =
      split (resolve_secret h external p.psk a.cache) e
    where
      split :
          (r : Cache × Result SecretError Bytes)
          → (apply_resolved lib dev h external p update_only r a).errors ≡ []
          → c.routed (apply_resolved lib dev h external p update_only r a).tunnel ip k ≡ b
      split (cache, err x) e = absurd (snoc-not_nil a.errors _ e)
      split (cache, ok psk) e =
          elim (Option-cases
            (apply_device_peer lib dev (device_peer p psk) update_only a.tunnel).1) [
              | inl none_yet ↦
                  apply_device_peer-routed lib dev u c k ip (device_peer p psk) update_only a.tunnel
                    b agrees.own agrees.other present before none_yet
              | inr (x, failed) ↦
                  absurd (ground (arith, snoc-not_nil a.errors (peer_failed p.name x)))
            ]

  revoke_all-routed :
      (ps : List PeerConfig) (a : Applied W)
      → (revoke_all lib dev h external ps a).errors ≡ []
      → c.routed (revoke_all lib dev h external ps a).tunnel ip k
        ≡ (c.routed a.tunnel ip k && not (names_key lib k ps))
  unfolding revoke_all
  revoke_all-routed [] a e = ground arith
  revoke_all-routed (p ∷ ps) a e =
      let later = revoke_all-routed ps (revoke lib dev h external p a) e in
      let (e1, _) =
        revoke_all-has_peer lib dev u k h external ps (revoke lib dev h external p a) e in
      let first = revoke-routed p a e1 in ground arith

  -- The same of a loop over entries that agree with the route being `b`.
  pub apply_all-routed :
      (update_only : Bool) (ps : List PeerConfig) (a : Applied W) (b : Bool)
      → All (Agrees lib k ip b) ps
      → (update_only ≡ true → names_key lib k ps ≡ true → u.has_peer a.tunnel k ≡ true)
      → (c.routed a.tunnel ip k ≡ b) ⊎ (names_key lib k ps ≡ true)
      → (apply_all lib dev h external update_only ps a).errors ≡ []
      → c.routed (apply_all lib dev h external update_only ps a).tunnel ip k ≡ b
  unfolding apply_all
  apply_all-routed update_only [] a b agrees present (inl before) e = before
  apply_all-routed update_only [] a b agrees present (inr named) e = absurd (ground arith)
  apply_all-routed update_only (p ∷ ps) a b (agrees, all_agree) present before e =
      let after = apply_peer lib dev h external update_only p a in
      let (e1, _) = apply_all-has_peer lib dev u k h external update_only ps after e in
      let (e2, has) = apply_peer-has_peer lib dev u k h external update_only p a e1 in
      let still : (update_only ≡ true
          → names_key lib k ps ≡ true
          → u.has_peer after.tunnel k ≡ true) =
        λ only named. ground arith in
      elim (Bool-cases (has_hex lib k p)) [
        | inl mine ↦
            let first =
              apply_peer-routed update_only p a b agrees (λ only _. ground arith) (inr mine) e1 in
            apply_all-routed update_only ps after b all_agree still (inl first) e
        | inr other ↦ elim before [
          | inl was ↦
              let first =
                apply_peer-routed update_only p a b agrees (λ only mine. cc) (inl was) e1 in
              apply_all-routed update_only ps after b all_agree still (inl first) e
          | inr named ↦
              apply_all-routed update_only ps after b all_agree still (inr (ground arith)) e
        ]
      ]

same_address :
    (ip : Addr) (p q : PeerConfig)
    → peer_equal p q ≡ true
    → addr_beq p.tunnel_ip ip ≡ addr_beq q.tunnel_ip ip
unfolding peer_equal
same_address ip p q e =
    let same : p.tunnel_ip ≡ q.tunnel_ip =
      (addr_beq_iff p.tunnel_ip q.tunnel_ip).0 (ground arith) in
    ap (λ (a : Addr). addr_beq a ip) same

-- A key that a reload neither adds nor changes keeps its address, unless the reload removes it.
kept_address :
    (ip : Addr) (old new : Option PeerConfig)
    → found (added_at old new) ≡ false
    → found (changed_at old new) ≡ false
    → (at ip old && not (found (removed_at old new))) ≡ at ip new
kept_address ip none none a c = refl
kept_address ip none (some q) a c = cc
kept_address ip (some p) none a c = ground arith
kept_address ip (some p) (some q) a c = ground (arith, same_address ip p q)

-- A key that a reload changes was there, and is not removed.
changed_kept :
    (old new : Option PeerConfig)
    → found (changed_at old new) ≡ true
    → (found old ≡ true) × (found (removed_at old new) ≡ false)
changed_kept none none c = cc
changed_kept none (some q) c = cc
changed_kept (some p) none c = cc
changed_kept (some p) (some q) c = (refl, refl)

-- The peer lists of two reloads, each with distinct keys and addresses, and a device that keeps to its
-- documented interface. If before the reload the device takes packets from an address from the peer under
-- a key exactly if the entry of that key in the old list has this address, and has the peer exactly if the
-- old list has the key, and applying the diff reports no error, then afterwards it takes them from this
-- peer exactly if the entry in the new list has this address. So two peers may swap addresses.
pub apply_diff-routed :
    {W : Type 0} (lib : Texts) (dev : Wireguard W) (u : Uapi lib dev) (c : Cryptokey lib dev u)
    (h : Host) (external : Option SecretResolver) (prev next : List PeerConfig) (cache : Cache)
    (w : W) (k t : Bytes) (ip : Addr)
    → AllApart prev
    → AllApart next
    → All (IsSpelt lib k t) prev
    → All (IsSpelt lib k t) next
    → u.has_peer w k ≡ names_key lib k prev
    → c.routed w ip k ≡ routes lib k ip prev
    → let after = apply_diff lib dev h external (diff_peers prev next) cache w in
      after.errors ≡ [] → c.routed after.tunnel ip k ≡ routes lib k ip next
unfolding apply_diff
apply_diff-routed lib dev u c h external prev next cache w k t ip dp dn sp sn has before e =
    let d = diff_peers prev next in
    let b = routes lib k ip next in
    let start : Applied _ = record { cache = cache; tunnel = w; errors = [] } in
    let revoked = revoke_all lib dev h external d.removed start in
    let grown = apply_all lib dev h external false d.added revoked in
    let (e1, has2) = apply_all-has_peer lib dev u k h external true d.changed grown e in
    let (e2, has1) = apply_all-has_peer lib dev u k h external false d.added revoked e1 in
    let (_, has0) = revoke_all-has_peer lib dev u k h external d.removed start e2 in
    let routed0 = revoke_all-routed lib dev u c k ip h external d.removed start e2 in
    let (agree_added, agree_changed) =
      diff_peers-All-next (Agrees lib k ip b) prev next (All-Agrees lib k t ip next sn dn) in
    let (spelt_added, spelt_changed) = diff_peers-All-next (IsSpelt lib k t) prev next sn in
    let names_added = names_key-find lib k t d.added spelt_added in
    let names_changed = names_key-find lib k t d.changed spelt_changed in
    let names_removed =
      names_key-find lib k t d.removed (diff_peers-All-prev (IsSpelt lib k t) prev next sp) in
    let names_prev = names_key-find lib k t prev sp in
    let old_route = routes-find lib k t ip prev sp in
    let new_route = routes-find lib k t ip next sn in
    let (at_added, at_removed, at_changed) =
      diff_peers_exact prev next t (DistinctKeys-AllApart prev dp)
        (DistinctKeys-AllApart next dn) in
    let present : (◌≡◌ {A = Bool} true true
        → names_key lib k d.changed ≡ true
        → u.has_peer grown.tunnel k ≡ true) =
      λ _ named. ground (arith, changed_kept (find t prev) (find t next)) in
    let finish =
      apply_all-routed lib dev u c k ip h external true d.changed grown b agree_changed present in
    let grow =
      apply_all-routed lib dev u c k ip h external false d.added revoked b agree_added
        (λ only _. cc) in
    elim (Bool-cases (names_key lib k d.changed)) [
      | inl changed ↦ finish (inr changed) e
      | inr not_changed ↦ elim (Bool-cases (names_key lib k d.added)) [
        | inl added ↦ finish (inl (grow (inr added) e1)) e
        | inr not_added ↦
            let kept : c.routed revoked.tunnel ip k ≡ b =
              ground (arith, kept_address ip (find t prev) (find t next)) in
            finish (inl (grow (inl kept) e1)) e
      ]
    ]
