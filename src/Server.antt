-- ===== src/Server.antt =====
-- server.go: the peers that the server knows and the limiter of each. A limiter is an object with an
-- identity, so the limiters stand on a heap: a number is a pointer, `limiters` maps addresses to
-- pointers, and `fresh` is the next pointer that was never used.
pub mod Refresh
pub mod Holders
pub mod Handler
pub mod System
pub mod Apply
pub mod Reload
pub mod Scrub
pub mod Remote
pub mod Pipe
pub mod Served
pub mod Run
pub mod Start
use gocloak.Base.{
  ℕ, suc, Bool, true, false, not, ◌||◌, Bytes, List, [], ◌∷◌, ◌++◌, map, Option, none, some, lookup,
  insert, contains, nat_eq, nat_beq, bytes_beq, if◌then◌else◌, codes,
}
use gocloak.Config.Peers.{PeerConfig, PeersConfig}
use gocloak.Limiter.{Limiter, set_limits, new_peer_limiter, drain_live}
use gocloak.Net.{Addr, unmap, addr_eq}

-- The maps of `Server` that `mu` guards, and the heap.
pub record Server : Type 0 where
  pub peer_names : List (Addr × Bytes)
  pub limiters : List (Addr × ℕ)
  pub heap : ℕ → Limiter
  pub fresh : ℕ

abbrev pub update {ℓ} : {A : Type ℓ} → (ℕ → A) → ℕ → A → ℕ → A
update f i a j = if nat_beq i j then a else f j

abbrev or_unknown : Option Bytes → Bytes
or_unknown none = codes "unknown"
or_unknown (some name) = name

-- `peerName`
unfoldable pub peer_name : Server → Addr → Bytes
peer_name s ip = or_unknown (lookup (unmap ip) s.peer_names)

-- `limiterFor`
unfoldable pub limiter_for : Server → Addr → Option ℕ
limiter_for s ip = lookup (unmap ip) s.limiters

-- The pointer that the old map holds for the address, if it is the limiter of the same public key.
unfoldable pub same_peer : Server → PeerConfig → Option ℕ
same_peer s p = elim (lookup (unmap p.tunnel_ip) s.limiters) [
  | none ↦ none
  | some l ↦ if bytes_beq (s.heap l).public_key p.public_key then some l else none
]

-- What the loop of `refreshPeers` builds.
pub record Rebuilt : Type 0 where
  pub names : List (Addr × Bytes)
  pub limiters : List (Addr × ℕ)
  pub heap : ℕ → Limiter
  pub fresh : ℕ

-- The limiter half of one round: a limiter of the same peer is kept under its new limits, any other gets a
-- new one.
unfoldable pub keep_or_make : ℕ → PeerConfig → Option ℕ → Rebuilt → Rebuilt
keep_or_make now p (some l) r = record r {
  limiters = insert (unmap p.tunnel_ip) l r.limiters;
  heap = update r.heap l (set_limits p.limits (r.heap l));
}
keep_or_make now p none r = record r {
  limiters = insert (unmap p.tunnel_ip) r.fresh r.limiters;
  heap = update r.heap r.fresh (new_peer_limiter p.public_key p.limits now);
  fresh = suc r.fresh;
}

-- The body of the loop of `refreshPeers`. `s` is the server before the call; its heap is read through `r`,
-- which holds the writes of the earlier rounds.
unfoldable pub refresh_peer : ℕ → Server → PeerConfig → Rebuilt → Rebuilt
refresh_peer now s p r =
    keep_or_make now p (same_peer (record s { heap = r.heap }) p)
      (record r { names = insert (unmap p.tunnel_ip) p.name r.names })

unfoldable pub rebuild : ℕ → Server → List PeerConfig → Rebuilt → Rebuilt
rebuild now s [] r = r
rebuild now s (p ∷ ps) r = rebuild now s ps (refresh_peer now s p r)

abbrev pub pointers : List (Addr × ℕ) → List ℕ
pointers = map (λ (e : Addr × ℕ). e.1)

-- The pointers of the old map that are not kept.
unfoldable pub not_kept : List ℕ → List ℕ → List ℕ
not_kept kept [] = []
not_kept kept (l ∷ ls) = if contains kept l then not_kept kept ls else l ∷ not_kept kept ls

-- `refreshPeers` up to the unlock: the new maps, and the limiters whose connections are to be closed.
unfoldable pub refresh_peers : ℕ → List PeerConfig → Server → Server × List ℕ
refresh_peers now peers s =
    let r =
      rebuild now s peers (record { names = []; limiters = []; heap = s.heap; fresh = s.fresh }) in
    (
      record { peer_names = r.names; limiters = r.limiters; heap = r.heap; fresh = r.fresh },
      not_kept (pointers r.limiters) (pointers s.limiters),
    )

-- `closeLive` on the limiter at a pointer: its set is emptied, and its connections are to be closed.
unfoldable pub close_live : ℕ → Server → Server × List ℕ
close_live l s =
    let (p, conns) = drain_live (s.heap l) in (record s { heap = update s.heap l p }, conns)
