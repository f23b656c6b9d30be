-- ===== src/Server/Apply/Routes.antt =====
-- server.go, `applyDiff`: cryptokey routing. A device takes a packet from an address only from the peer
-- that the address is allowed to, which is what lets the server take the address for the peer.
pub mod Followed
use gocloak.Base.{
  ◌≡◌, refl, sym, ◌∙◌, ◌⊎◌, inl, inr, Bool, true, false, not, ◌&&◌, Bytes, bytes_beq, bytes_beq_iff,
  List, [], ◌∷◌, ◌++◌, Option, none, some, arith, All, Result, ok, err, Bool-cases, Result-cases,
  Option-cases, if◌then◌else◌,
}
use gocloak.Config.Diff.Keys.{find, diff_peers-All-next, diff_peers_exact}
use gocloak.Config.Diff.{diff_peers, peer_equal}
use gocloak.Config.Peers.Loaded.{Apart, AllApart, DistinctKeys-AllApart}
use gocloak.Config.Peers.{PeerConfig}
use gocloak.Config.{prefix_contains, tunnel_subnet}
use gocloak.Device.{
  Texts, Wireguard, DevicePeer, hex, key_to_hex, ipc_config, settings, public_key_line,
  update_only_line, removal, set_block, apply_device_peer, remove_peer,
}
use gocloak.Net.{Addr, addr_beq, addr_beq_iff}
use gocloak.Secret.{SecretError, SecretResolver, Host}
use gocloak.Server.Apply.Simulated.{IsSpelt, found, has_hex-spelt, names_key-find}
use gocloak.Server.Apply.Table.{Uapi, text_hex, has_hex, names_key, key_to_hex-hex}
use gocloak.Server.Apply.{
  Cache, Applied, ApplyError, device_peer, resolve_secret, revoke, apply_resolved, apply_peer,
  revoke_all, apply_all, apply_diff,
}

-- What a block that replaces the allowed addresses of the peer `j` by `a` makes of the route from an
-- address to the peer `k`: the address goes to `j` if it is `a`, and an address that was another peer's
-- is taken from it.
abbrev pub assigned : Bytes → Addr → Bytes → Addr → Bool → Bool
assigned j a k ip before = if bytes_beq j k then addr_beq a ip else before && not (addr_beq a ip)

-- What wireguard-go documents of a block that it accepts: `remove` gives up the peer's addresses, and
-- `replace_allowed_ips` with one `allowed_ip` assigns it. An `update_only` block for a peer that is not
-- there is ignored. `routed w ip k`: packets from `ip` are taken from the peer `k`.
pub record Cryptokey {W : Type 0} (lib : Texts) (dev : Wireguard W) (u : Uapi lib dev)
    : Type 0 where
  pub routed : W → Addr → Bytes → Bool
  pub removes :
      (raw : Bytes) (w : W) (ip : Addr) (k : Bytes)
      → (dev.ipc_set (removal (hex raw)) w).1 ≡ false
      → routed (dev.ipc_set (removal (hex raw)) w).0 ip k
        ≡ (routed w ip k && not (bytes_beq (hex raw) k))
  pub creates :
      (raw psk : Bytes) (p : DevicePeer) (w : W) (ip : Addr) (k : Bytes)
      → prefix_contains tunnel_subnet p.allowed_ip ≡ true
      → let text = public_key_line (hex raw) ++ settings lib (hex psk) p in
        (dev.ipc_set text w).1 ≡ false
        → routed (dev.ipc_set text w).0 ip k ≡ assigned (hex raw) p.allowed_ip k ip (routed w ip k)
  pub updates :
      (raw psk : Bytes) (p : DevicePeer) (w : W) (ip : Addr) (k : Bytes)
      → prefix_contains tunnel_subnet p.allowed_ip ≡ true
      → let text = public_key_line (hex raw) ++ (update_only_line ++ settings lib (hex psk) p) in
        (dev.ipc_set text w).1 ≡ false
        → routed (dev.ipc_set text w).0 ip k ≡ (
            if u.has_peer w (hex raw)
            then assigned (hex raw) p.allowed_ip k ip (routed w ip k)
            else routed w ip k)

-- The entry of the key `k` has this address.
abbrev pub routes : Texts → Bytes → Addr → List PeerConfig → Bool
routes lib k ip [] = false
routes lib k ip (p ∷ ps) = if has_hex lib k p then addr_beq p.tunnel_ip ip else routes lib k ip ps

abbrev pub at : Addr → Option PeerConfig → Bool
at ip none = false
at ip (some p) = addr_beq p.tunnel_ip ip

pub routes-find :
    (lib : Texts) (k t : Bytes) (ip : Addr) (ps : List PeerConfig)
    → All (IsSpelt lib k t) ps
    → routes lib k ip ps ≡ (text_hex lib k t && at ip (find t ps))
unfolding find
routes-find lib k t ip [] h = ground arith
routes-find lib k t ip (p ∷ ps) (h, hs) =
    ground (arith, has_hex-spelt lib k t p h, routes-find lib k t ip ps hs)

-- The entry does not go against the route from `ip` to `k` being `c`.
pub record Agrees (lib : Texts) (k : Bytes) (ip : Addr) (c : Bool) (p : PeerConfig) : Type 0 where
  pub own : has_hex lib k p ≡ true → addr_beq p.tunnel_ip ip ≡ c
  pub other : has_hex lib k p ≡ false → c ≡ true → addr_beq p.tunnel_ip ip ≡ false

module _ (lib : Texts) (k t : Bytes) (ip : Addr) where
  -- Entries that are apart from the entry of `k` agree with it.
  Agrees-Apart :
      (p : PeerConfig) (ps : List PeerConfig)
      → IsSpelt lib k t p
      → All (IsSpelt lib k t) ps
      → All (Apart p) ps
      → has_hex lib k p ≡ true
      → All (Agrees lib k ip (addr_beq p.tunnel_ip ip)) ps
  Agrees-Apart p [] sp sps a e = tt
  Agrees-Apart p (q ∷ ps) sp (sq, sps) (a, as_) e = (
    record {
      own = λ mine. absurd (a.keys (sp e ∙ sym (sq mine)));
      other = λ _ here. elim (Bool-cases (addr_beq q.tunnel_ip ip)) [
        | inr no_route ↦ no_route
        | inl same ↦ absurd (
            a.ips
              ((addr_beq_iff p.tunnel_ip ip).0 here ∙ sym ((addr_beq_iff q.tunnel_ip ip).0 same)))
      ];
    },
    Agrees-Apart p ps sp sps as_ e,
  )

  -- The address of the entry of `k` is no other entry's.
  pub routes-Apart :
      (p : PeerConfig) (ps : List PeerConfig)
      → All (Apart p) ps
      → routes lib k ip ps ≡ true
      → addr_beq p.tunnel_ip ip ≡ false
  routes-Apart p [] a e = absurd (ground arith)
  routes-Apart p (q ∷ ps) (a, as_) e = elim (Bool-cases (has_hex lib k q)) [
    | inr other ↦ routes-Apart p ps as_ (ground arith)
    | inl mine ↦
        let here : addr_beq q.tunnel_ip ip ≡ true = ground arith in
        elim (Bool-cases (addr_beq p.tunnel_ip ip)) [
          | inr no_route ↦ no_route
          | inl same ↦ absurd (
              a.ips
                ((addr_beq_iff p.tunnel_ip ip).0 same ∙ sym ((addr_beq_iff q.tunnel_ip ip).0 here)))
        ]
  ]

  All-Agrees-cons :
      (p : PeerConfig) (ps : List PeerConfig)
      → IsSpelt lib k t p
      → All (IsSpelt lib k t) ps
      → All (Apart p) ps
      → All (Agrees lib k ip (routes lib k ip ps)) ps
      → All (Agrees lib k ip (routes lib k ip (p ∷ ps))) (p ∷ ps)
  All-Agrees-cons p ps s ss a later = split (has_hex lib k p) refl
    where
      split :
          (b : Bool)
          → has_hex lib k p ≡ b
          → All
              (Agrees lib k ip (if b then addr_beq p.tunnel_ip ip else routes lib k ip ps))
              (p ∷ ps)
      split true e = (record { own = λ _. refl; other = λ no_hex. cc }, Agrees-Apart p ps s ss a e)
      split false e =
          (record { own = λ mine. cc; other = λ _ here. routes-Apart p ps a here }, later)

  -- Every entry of a list agrees with the routes of the list.
  pub All-Agrees :
      (ps : List PeerConfig)
      → All (IsSpelt lib k t) ps
      → AllApart ps
      → All (Agrees lib k ip (routes lib k ip ps)) ps
  All-Agrees [] s a = tt
  All-Agrees (p ∷ ps) (s, ss) (a, as_) = All-Agrees-cons p ps s ss a (All-Agrees ps ss as_)

module _ {W : Type 0} (lib : Texts) (dev : Wireguard W) (u : Uapi lib dev) (c : Cryptokey lib dev u)
    (k : Bytes) (ip : Addr) where
  pub remove_peer-routed :
      (p : PeerConfig) (w : W)
      → (remove_peer lib dev p.public_key w).1 ≡ none
      → c.routed (remove_peer lib dev p.public_key w).0 ip k
        ≡ (c.routed w ip k && not (has_hex lib k p))
  unfolding remove_peer set_block
  remove_peer-routed p w h = elim (Result-cases (key_to_hex lib p.public_key)) [
    | inl (j, e) ↦
        let (raw, q) = key_to_hex-hex lib p.public_key j e in ground (arith, c.removes raw w ip k)
    | inr (x, e) ↦ absurd (ground arith)
  ]

  -- A step on the device for an entry that agrees with the route being `b`: behind it the route is `b`, if it
  -- was before, or if the entry is the one of `k`, and the device has that peer or may create it.
  pub apply_device_peer-routed :
      (p : DevicePeer) (update_only : Bool) (w : W) (b : Bool)
      → (text_hex lib k p.public_key ≡ true → addr_beq p.allowed_ip ip ≡ b)
      → (text_hex lib k p.public_key ≡ false → b ≡ true → addr_beq p.allowed_ip ip ≡ false)
      → (update_only ≡ true → text_hex lib k p.public_key ≡ true → u.has_peer w k ≡ true)
      → (c.routed w ip k ≡ b) ⊎ (text_hex lib k p.public_key ≡ true)
      → (apply_device_peer lib dev p update_only w).1 ≡ none
      → c.routed (apply_device_peer lib dev p update_only w).0 ip k ≡ b
  unfolding apply_device_peer set_block ipc_config
  apply_device_peer-routed p update_only w b own other present before h =
      elim (Result-cases (key_to_hex lib p.public_key)) [
        | inl (j, e) ↦ elim (Result-cases (key_to_hex lib p.preshared_key)) [
          | inl (s, f) ↦
              let (raw, q) = key_to_hex-hex lib p.public_key j e in
              let (raw_psk, r) = key_to_hex-hex lib p.preshared_key s f in
              ground (
                arith,
                c.creates raw raw_psk p w ip k,
                c.updates raw raw_psk p w ip k,
                bytes_beq_iff (hex raw) k,
              )
          | inr (x, f) ↦ absurd (ground arith)
        ]
        | inr (x, e) ↦ absurd (ground arith)
      ]
