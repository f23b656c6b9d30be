-- ===== src/Server/Reload/Limited.antt =====
-- server.go, `refreshPeers`: which addresses have a limiter when its loops are done.
use gocloak.Base.{
  ℕ, ◌≡◌, refl, Bool, true, false, ◌||◌, List, [], ◌∷◌, Option, none, some, arith, lookup, insert,
  lookup-insert, has_key, Any,
}
use gocloak.Config.Peers.{PeerConfig}
use gocloak.Limiter.{drain_live}
use gocloak.Net.{Addr, unmap, addr_eq}
use gocloak.Server.Holders.{IsHolder, refresh_peers-IsHolder}
use gocloak.Server.Refresh.{IsServer, refresh_peers-IsServer, start}
use gocloak.Server.Reload.{close_gone, refresh_and_close}
use gocloak.Server.{
  Server, Rebuilt, limiter_for, same_peer, keep_or_make, refresh_peer, rebuild, refresh_peers,
  close_live,
}

keep_or_make-has_key :
    (now : ℕ) (p : PeerConfig) (o : Option ℕ) (r : Rebuilt) (ip : Addr)
    → has_key ip (keep_or_make now p o r).limiters
      ≡ (addr_eq.beq (unmap p.tunnel_ip) ip || has_key ip r.limiters)
unfolding keep_or_make
keep_or_make-has_key now p none r ip =
    ground (arith, lookup-insert (unmap p.tunnel_ip) ip r.fresh r.limiters)
keep_or_make-has_key now p (some l) r ip =
    ground (arith, lookup-insert (unmap p.tunnel_ip) ip l r.limiters)

-- The address of an entry.
abbrev pub at_address : Addr → List PeerConfig → Bool
at_address ip [] = false
at_address ip (p ∷ ps) = addr_eq.beq (unmap p.tunnel_ip) ip || at_address ip ps

rebuild-has_key :
    (now : ℕ) (s : Server) (ps : List PeerConfig) (r : Rebuilt) (ip : Addr)
    → has_key ip (rebuild now s ps r).limiters ≡ (at_address ip ps || has_key ip r.limiters)
unfolding rebuild refresh_peer
rebuild-has_key now s [] r ip = refl
rebuild-has_key now s (p ∷ ps) r ip =
    let named = record r { names = insert (unmap p.tunnel_ip) p.name r.names } in
    let o = same_peer (record s { heap = r.heap }) p in
    ground (
      arith,
      rebuild-has_key now s ps (keep_or_make now p o named) ip,
      keep_or_make-has_key now p o named ip,
    )

-- Closing connections leaves the maps and the identity of every limiter.
record Closed (s s' : Server) : Type 0 where
  names : s'.peer_names ≡ s.peer_names
  limiters : s'.limiters ≡ s.limiters
  fresh : s'.fresh ≡ s.fresh
  key : (l : ℕ) → (s'.heap l).public_key ≡ (s.heap l).public_key

close_gone-Closed : (ls : List ℕ) (s : Server) → Closed s (close_gone ls s).0
unfolding close_gone close_live drain_live
close_gone-Closed [] s = record { names = refl; limiters = refl; fresh = refl; key = λ l. refl }
close_gone-Closed (m ∷ ls) s =
    let rest = close_gone-Closed ls (close_live m s).0 in
    record {
      names = rest.names;
      limiters = rest.limiters;
      fresh = rest.fresh;
      key = λ l. ground (arith, rest.key l);
    }

pub refresh_and_close-IsServer :
    (now : ℕ) (ps : List PeerConfig) (s : Server)
    → IsServer s
    → IsServer (refresh_and_close now ps s).0
unfolding refresh_and_close
refresh_and_close-IsServer now ps s is =
    let (s', gone) = refresh_peers now ps s in
    let kept = refresh_peers-IsServer now ps s is in
    let c = close_gone-Closed gone s' in
    record {
      made = λ ip l h. ground (arith, kept.made ip l, c.limiters, c.fresh);
      one_address = λ ip ip' l h h'. ground (arith, kept.one_address ip ip' l, c.limiters);
    }

pub refresh_and_close-IsHolder :
    (now : ℕ) (ps : List PeerConfig) (s : Server) (ip : Addr) (l : ℕ)
    → IsServer s
    → let s' = (refresh_and_close now ps s).0 in
      limiter_for s' ip ≡ some l → Any (IsHolder (unmap ip) (s'.heap l).public_key) ps
unfolding refresh_and_close limiter_for
refresh_and_close-IsHolder now ps s ip l is h =
    let (s', gone) = refresh_peers now ps s in
    let c = close_gone-Closed gone s' in
    rw (c.key l) (refresh_peers-IsHolder now ps s ip l is (ground (arith, c.limiters)))

-- A lookup that succeeds.
abbrev pub is_some : Option ℕ → Bool
is_some none = false
is_some (some _) = true

pub refresh_and_close-limiter_for :
    (now : ℕ) (ps : List PeerConfig) (s : Server) (ip : Addr)
    → is_some (limiter_for (refresh_and_close now ps s).0 ip) ≡ at_address (unmap ip) ps
unfolding refresh_and_close limiter_for refresh_peers lookup
refresh_and_close-limiter_for now ps s ip =
    let (s', gone) = refresh_peers now ps s in
    let c = close_gone-Closed gone s' in
    ground (arith, c.limiters, rebuild-has_key now s ps (start s) (unmap ip))
