-- ===== src/Server/Holders.antt =====
-- server.go, `refreshPeers`: whose limiter stands at an address after a reload.
use gocloak.Base.{
  ℕ, ◌<◌, ◌≡◌, ◌⊎◌, inl, inr, refl, ◌∙◌, Bytes, List, [], ◌∷◌, Option, none, some, arith, lookup,
  insert, lookup-insert, Any,
}
use gocloak.Config.Peers.{PeerConfig}
use gocloak.Limiter.{set_limits, new_peer_limiter}
use gocloak.Net.{Addr, unmap, addr_eq, addr_beq_iff}
use gocloak.Server.Refresh.{
  IsServer, Builds, same_peer-eq-some, refresh_peer-Builds, start, start-Builds,
}
use gocloak.Server.{
  Server, Rebuilt, limiter_for, same_peer, keep_or_make, refresh_peer, rebuild, refresh_peers,
}

refresh_peer-key :
    (now : ℕ) (s : Server) (p : PeerConfig) (r : Rebuilt) (l : ℕ)
    → l < r.fresh
    → (l < (refresh_peer now s p r).fresh)
      × (((refresh_peer now s p r).heap l).public_key ≡ (r.heap l).public_key)
unfolding refresh_peer keep_or_make set_limits
refresh_peer-key now s p r l h = (ground arith, ground arith)

rebuild-key :
    (now : ℕ) (s : Server) (ps : List PeerConfig) (r : Rebuilt) (l : ℕ)
    → l < r.fresh
    → ((rebuild now s ps r).heap l).public_key ≡ (r.heap l).public_key
unfolding rebuild
rebuild-key now s [] r l h = refl
rebuild-key now s (p ∷ ps) r l h =
    let (below, same) = refresh_peer-key now s p r l h in
    rebuild-key now s ps (refresh_peer now s p r) l below ∙ same

-- One round: the pointer at the peer's own address is a limiter of its key, the others are as before.
refresh_peer-pointer :
    (now : ℕ) (s : Server) (p : PeerConfig) (r : Rebuilt) (ip : Addr) (l : ℕ)
    → IsServer s
    → Builds s r
    → lookup ip (refresh_peer now s p r).limiters ≡ some l
    → ((unmap p.tunnel_ip ≡ ip) × (((refresh_peer now s p r).heap l).public_key ≡ p.public_key))
      ⊎ (lookup ip r.limiters ≡ some l)
unfolding refresh_peer
refresh_peer-pointer now s p r ip l is b = split (same_peer (record s { heap = r.heap }) p) refl
  where
    named : Rebuilt
    named = record r { names = insert (unmap p.tunnel_ip) p.name r.names }

    split :
        (o : Option ℕ)
        → same_peer (record s { heap = r.heap }) p ≡ o
        → lookup ip (keep_or_make now p o named).limiters ≡ some l
        → ((unmap p.tunnel_ip ≡ ip)
            × (((keep_or_make now p o named).heap l).public_key ≡ p.public_key))
          ⊎ (lookup ip r.limiters ≡ some l)
    split none e h =
        unfold keep_or_make new_peer_limiter set_limits in
        ground (
          arith,
          lookup-insert (unmap p.tunnel_ip) ip r.fresh r.limiters,
          addr_beq_iff (unmap p.tunnel_ip) ip,
        )
    split (some m) e h =
        unfold keep_or_make set_limits in
        ground (
          arith,
          same_peer-eq-some (record s { heap = r.heap }) p m e,
          lookup-insert (unmap p.tunnel_ip) ip m r.limiters,
          addr_beq_iff (unmap p.tunnel_ip) ip,
        )

-- The peer stands at the address, and the key is its own.
abbrev pub IsHolder : Addr → Bytes → PeerConfig → Type 0
IsHolder ip key p = (unmap p.tunnel_ip ≡ ip) × (key ≡ p.public_key)

rebuild-IsHolder :
    (now : ℕ) (s : Server) (ps : List PeerConfig) (r : Rebuilt) (ip : Addr) (l : ℕ)
    → IsServer s
    → Builds s r
    → lookup ip (rebuild now s ps r).limiters ≡ some l
    → Any (IsHolder ip ((rebuild now s ps r).heap l).public_key) ps
      ⊎ (lookup ip r.limiters ≡ some l)
unfolding rebuild
rebuild-IsHolder now s [] r ip l is b h = inr h
rebuild-IsHolder now s (p ∷ ps) r ip l is b h =
    let r1 = refresh_peer now s p r in
    let b1 = refresh_peer-Builds now s is p r b in
    elim (rebuild-IsHolder now s ps r1 ip l is b1 h) [
      | inl later ↦ inl (inr later)
      | inr found ↦ elim (refresh_peer-pointer now s p r ip l is b found) [
        | inl (at, key) ↦ inl (inl (at, rebuild-key now s ps r1 l (b1.made ip l found) ∙ key))
        | inr before ↦ inr before
      ]
    ]

-- After a reload of a well-formed server, a limiter in force for an address belongs to a peer of the new list that has this
-- address: its key is that peer's key. An address of no listed peer has no limiter.
pub refresh_peers-IsHolder :
    (now : ℕ) (ps : List PeerConfig) (s : Server) (ip : Addr) (l : ℕ)
    → IsServer s
    → let s' = (refresh_peers now ps s).0 in
      limiter_for s' ip ≡ some l → Any (IsHolder (unmap ip) (s'.heap l).public_key) ps
unfolding refresh_peers limiter_for lookup
refresh_peers-IsHolder now ps s ip l is h =
    elim (rebuild-IsHolder now s ps (start s) (unmap ip) l is (start-Builds s) h) [
      | inl holder ↦ holder
      | inr none_yet ↦ cc
    ]
