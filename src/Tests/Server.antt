-- ===== src/Tests/Server.antt =====
-- server.go, `refreshPeers`: one peer comes, and then goes.
use gocloak.Base.{
  ◌≡◌, ◌⊎◌, refl, true, List, [], ◌∷◌, some, Any, contains, nat_eq, codes, lookup, insert,
}
use gocloak.Config.Peers.{PeerConfig}
use gocloak.Limiter.{new_peer_limiter}
use gocloak.Net.{unmap, addr_beq}
use gocloak.Server.Holders.{IsHolder, refresh_peers-IsHolder}
use gocloak.Server.Refresh.{IsServer, refresh_peers-IsServer, refresh_peers_reaps}
use gocloak.Server.{
  Server, limiter_for, refresh_peers, rebuild, refresh_peer, keep_or_make, same_peer,
}
use gocloak.Tests.Data.{laptop, laptop_peer}

abbrev pub peers : List PeerConfig
peers = laptop_peer ∷ []

abbrev pub no_peers : Server
no_peers = record {
  peer_names = [];
  limiters = [];
  heap = λ l. new_peer_limiter (codes "") (record { max_concurrent = 0; dials_per_second = 0 }) 0;
  fresh = 0;
}

pub no_peers-IsServer : IsServer no_peers
unfolding lookup
no_peers-IsServer = record { made = λ ip l h. cc; one_address = λ ip ip' l h h'. cc }

abbrev pub one_peer : Server
one_peer = (refresh_peers 0 peers no_peers).0

pub one_peer-IsServer : IsServer one_peer
one_peer-IsServer = refresh_peers-IsServer 0 peers no_peers no_peers-IsServer

pub limited : limiter_for one_peer laptop ≡ some 0
unfolding limiter_for refresh_peers rebuild refresh_peer keep_or_make same_peer lookup insert unmap
    addr_beq
limited = refl

refresh_peers-IsHolder_example : Any (IsHolder (unmap laptop) (one_peer.heap 0).public_key) peers
refresh_peers-IsHolder_example =
    refresh_peers-IsHolder 0 peers no_peers laptop 0 no_peers-IsServer limited

refresh_peers_reaps_example :
    (limiter_for (refresh_peers 1 [] one_peer).0 laptop ≡ some 0)
    ⊎ (contains (refresh_peers 1 [] one_peer).1 0 ≡ true)
refresh_peers_reaps_example = refresh_peers_reaps 1 [] one_peer laptop 0 one_peer-IsServer limited
