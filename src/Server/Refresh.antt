-- ===== src/Server/Refresh.antt =====
-- server.go, `refreshPeers`: which limiters stay in force.
use gocloak.Base.{
  ℕ, ◌≤◌, ◌<◌, ◌≡◌, ◌⊎◌, inl, inr, refl, true, false, List, [], ◌∷◌, Option, none, some, arith,
  lookup, insert, lookup-insert, UniqueKeys, insert-UniqueKeys, contains, nat_eq, nat_beq,
  bytes_beq_iff, Option-cases, Bool-cases,
}
use gocloak.Config.Peers.{PeerConfig}
use gocloak.Limiter.{set_limits}
use gocloak.Net.{Addr, unmap, addr_eq, addr_beq_iff}
use gocloak.Server.{
  Server, Rebuilt, limiter_for, same_peer, keep_or_make, refresh_peer, rebuild, pointers, not_kept,
  refresh_peers,
}

-- Every limiter in the map was made, and stands at one address.
pub record IsServer (s : Server) : Type 0 where
  pub made : (ip : Addr) (l : ℕ) → lookup ip s.limiters ≡ some l → l < s.fresh
  pub one_address :
      (ip ip' : Addr) (l : ℕ)
      → lookup ip s.limiters ≡ some l
      → lookup ip' s.limiters ≡ some l
      → ip ≡ ip'

-- What holds of the maps under construction, in relation to the old server.
pub record Builds (s : Server) (r : Rebuilt) : Type 0 where
  pub unique : UniqueKeys r.limiters
  pub grows : s.fresh ≤ r.fresh
  pub live : (l : ℕ) → l < s.fresh → (r.heap l).live ≡ (s.heap l).live
  pub active : (l : ℕ) → l < s.fresh → (r.heap l).active ≡ (s.heap l).active
  pub key : (l : ℕ) → l < s.fresh → (r.heap l).public_key ≡ (s.heap l).public_key
  pub origin :
      (ip : Addr) (l : ℕ)
      → lookup ip r.limiters ≡ some l
      → (lookup ip s.limiters ≡ some l) ⊎ (s.fresh ≤ l)
  pub made : (ip : Addr) (l : ℕ) → lookup ip r.limiters ≡ some l → l < r.fresh
  pub one_address :
      (ip ip' : Addr) (l : ℕ)
      → s.fresh ≤ l
      → lookup ip r.limiters ≡ some l
      → lookup ip' r.limiters ≡ some l
      → ip ≡ ip'

pub same_peer-eq-some :
    (s : Server) (p : PeerConfig) (l : ℕ)
    → same_peer s p ≡ some l
    → (lookup (unmap p.tunnel_ip) s.limiters ≡ some l) × ((s.heap l).public_key ≡ p.public_key)
unfolding same_peer
same_peer-eq-some s p l h = elim (Option-cases (lookup (unmap p.tunnel_ip) s.limiters)) [
  | inl e ↦ absurd (ground arith)
  | inr (m, e) ↦ (ground arith, ground (arith, bytes_beq_iff (s.heap m).public_key p.public_key))
]

module _ (now : ℕ) (s : Server) (is : IsServer s) (p : PeerConfig) where
  keep-Builds :
      (r : Rebuilt) (l : ℕ)
      → Builds s r
      → lookup (unmap p.tunnel_ip) s.limiters ≡ some l
      → Builds s (keep_or_make now p (some l) r)
  unfolding keep_or_make set_limits
  keep-Builds r l b e = record {
    unique = insert-UniqueKeys (unmap p.tunnel_ip) l r.limiters b.unique;
    grows = b.grows;
    live = λ m h. ground (arith, b.live m h);
    active = λ m h. ground (arith, b.active m h);
    key = λ m h. ground (arith, b.key m h);
    origin = λ ip m h. ground (
      arith,
      b.origin ip m,
      lookup-insert (unmap p.tunnel_ip) ip l r.limiters,
      addr_beq_iff (unmap p.tunnel_ip) ip,
    );
    made = λ ip m h. ground (
      arith,
      b.made ip m,
      b.grows,
      is.made (unmap p.tunnel_ip) l e,
      lookup-insert (unmap p.tunnel_ip) ip l r.limiters,
    );
    one_address = λ ip ip' m old h h'. ground (
      arith,
      b.one_address ip ip' m old,
      is.made (unmap p.tunnel_ip) l e,
      lookup-insert (unmap p.tunnel_ip) ip l r.limiters,
      lookup-insert (unmap p.tunnel_ip) ip' l r.limiters,
    );
  }

  make-Builds : (r : Rebuilt) → Builds s r → Builds s (keep_or_make now p none r)
  unfolding keep_or_make
  make-Builds r b = record {
    unique = insert-UniqueKeys (unmap p.tunnel_ip) r.fresh r.limiters b.unique;
    grows = omega (arith, b.grows);
    live = λ m h. ground (arith, b.live m h, b.grows);
    active = λ m h. ground (arith, b.active m h, b.grows);
    key = λ m h. ground (arith, b.key m h, b.grows);
    origin = λ ip m h. ground (
      arith,
      b.grows,
      b.origin ip m,
      lookup-insert (unmap p.tunnel_ip) ip r.fresh r.limiters,
      addr_beq_iff (unmap p.tunnel_ip) ip,
    );
    made = λ ip m h.
        ground
          (arith, b.made ip m, b.grows, lookup-insert (unmap p.tunnel_ip) ip r.fresh r.limiters);
    one_address = λ ip ip' m old h h'. ground (
      arith,
      b.made ip m,
      b.made ip' m,
      b.one_address ip ip' m old,
      lookup-insert (unmap p.tunnel_ip) ip r.fresh r.limiters,
      lookup-insert (unmap p.tunnel_ip) ip' r.fresh r.limiters,
      addr_beq_iff (unmap p.tunnel_ip) ip,
      addr_beq_iff (unmap p.tunnel_ip) ip',
    );
  }

  pub refresh_peer-Builds : (r : Rebuilt) → Builds s r → Builds s (refresh_peer now s p r)
  unfolding refresh_peer
  refresh_peer-Builds r b = split (same_peer (record s { heap = r.heap }) p) refl
    where
      named : Rebuilt
      named = record r { names = insert (unmap p.tunnel_ip) p.name r.names }

      still : Builds s named
      still = record {
        unique = b.unique;
        grows = b.grows;
        live = b.live;
        active = b.active;
        key = b.key;
        origin = b.origin;
        made = b.made;
        one_address = b.one_address;
      }

      split :
          (o : Option ℕ)
          → same_peer (record s { heap = r.heap }) p ≡ o
          → Builds s (keep_or_make now p o named)
      split none e = make-Builds named still
      split (some l) e =
          keep-Builds named l still (same_peer-eq-some (record s { heap = r.heap }) p l e).0

rebuild-Builds :
    (now : ℕ) (s : Server) (ps : List PeerConfig) (r : Rebuilt)
    → IsServer s
    → Builds s r
    → Builds s (rebuild now s ps r)
unfolding rebuild
rebuild-Builds now s [] r is b = b
rebuild-Builds now s (p ∷ ps) r is b =
    rebuild-Builds now s ps (refresh_peer now s p r) is (refresh_peer-Builds now s is p r b)

abbrev pub start : Server → Rebuilt
start s = record { names = []; limiters = []; heap = s.heap; fresh = s.fresh }

pub start-Builds : (s : Server) → Builds s (start s)
unfolding lookup
start-Builds s = record {
  unique = tt;
  grows = omega arith;
  live = λ l h. refl;
  active = λ l h. refl;
  key = λ l h. refl;
  origin = λ ip l h. cc;
  made = λ ip l h. cc;
  one_address = λ ip ip' l old h h'. cc;
}

-- `refreshPeers` keeps a well-formed server's map of limiters well formed: every pointer in it is one that was made, and no
-- limiter stands at two addresses.
pub refresh_peers-IsServer :
    (now : ℕ) (ps : List PeerConfig) (s : Server) → IsServer s → IsServer (refresh_peers now ps s).0
unfolding refresh_peers
refresh_peers-IsServer now ps s is =
    let b = rebuild-Builds now s ps (start s) is (start-Builds s) in
    record {
      made = b.made;
      one_address = λ ip ip' l h h'. elim (b.origin ip l h) [
        | inr new ↦ b.one_address ip ip' l new h h'
        | inl old ↦ elim (b.origin ip' l h') [
          | inr new ↦ b.one_address ip ip' l new h h'
          | inl old' ↦ is.one_address ip ip' l old old'
        ]
      ];
    }

-- What a reload leaves of the limiters that were made before it.
pub record Kept (s s' : Server) : Type 0 where
  pub grows : s.fresh ≤ s'.fresh
  pub live : (l : ℕ) → l < s.fresh → (s'.heap l).live ≡ (s.heap l).live
  pub active : (l : ℕ) → l < s.fresh → (s'.heap l).active ≡ (s.heap l).active
  pub key : (l : ℕ) → l < s.fresh → (s'.heap l).public_key ≡ (s.heap l).public_key

pub refresh_peers-Kept :
    (now : ℕ) (ps : List PeerConfig) (s : Server) → IsServer s → Kept s (refresh_peers now ps s).0
unfolding refresh_peers
refresh_peers-Kept now ps s is =
    let b = rebuild-Builds now s ps (start s) is (start-Builds s) in
    record { grows = b.grows; live = b.live; active = b.active; key = b.key }

contains-pointers :
    (l : ℕ) (m : List (Addr × ℕ))
    → UniqueKeys m
    → contains (pointers m) l ≡ true
    → (ip : Addr) × (lookup ip m ≡ some l)
unfolding contains lookup
contains-pointers l [] u h = absurd (ground arith)
contains-pointers l ((ip, m) ∷ rest) u h = elim (Bool-cases (nat_beq m l)) [
  | inl e ↦ (ip, ground (arith, addr_beq_iff ip ip))
  | inr e ↦
      let (ip', found) = contains-pointers l rest u.1 (ground arith) in
      (ip', ground (arith, addr_beq_iff ip ip'))
]

contains-not_kept :
    (kept ls : List ℕ) (l : ℕ)
    → contains ls l ≡ true
    → contains kept l ≡ false
    → contains (not_kept kept ls) l ≡ true
unfolding contains not_kept
contains-not_kept kept [] l h k = h
contains-not_kept kept (x ∷ ls) l h k = ground (arith, contains-not_kept kept ls l)

lookup-contains :
    (ip : Addr) (l : ℕ) (m : List (Addr × ℕ))
    → lookup ip m ≡ some l
    → contains (pointers m) l ≡ true
unfolding contains lookup
lookup-contains ip l [] h = absurd (ground arith)
lookup-contains ip l ((j, k) ∷ m) h = ground (arith, lookup-contains ip l m)

-- On a well-formed server, a limiter in force stays in force for its address, or is handed over to have its connections closed.
pub refresh_peers_reaps :
    (now : ℕ) (ps : List PeerConfig) (s : Server) (ip : Addr) (l : ℕ)
    → IsServer s
    → limiter_for s ip ≡ some l
    → let (s', gone) = refresh_peers now ps s in
      (limiter_for s' ip ≡ some l) ⊎ (contains gone l ≡ true)
unfolding refresh_peers limiter_for
refresh_peers_reaps now ps s ip l is h =
    let b = rebuild-Builds now s ps (start s) is (start-Builds s) in
    let r = rebuild now s ps (start s) in
    elim (Bool-cases (contains (pointers r.limiters) l)) [
      | inr no_more ↦ inr (
          contains-not_kept (pointers r.limiters) (pointers s.limiters) l
            (lookup-contains (unmap ip) l s.limiters h) no_more)
      | inl kept ↦
          let (ip', found) = contains-pointers l r.limiters b.unique kept in
          elim (b.origin ip' l found) [
            | inr new ↦ absurd (omega (arith, is.made (unmap ip) l h))
            | inl old ↦ inl (rw (is.one_address (unmap ip) ip' l h old) found)
          ]
    ]
