-- ===== src/Config/Diff.antt =====
-- config.go, `diffPeers`: the change from one peer list to the next.
pub mod Keys
pub mod Equal
pub mod Exact
use gocloak.Base.{
  ℕ, Bool, true, false, not, ◌&&◌, Bytes, List, [], ◌∷◌, ◌++◌, Option, none, some, lookup, insert,
  contains, has_key, bytes_eq, bytes_beq, length, map, nat_beq, if◌then◌else◌,
}
use gocloak.Config.Peers.{PeerConfig}
use gocloak.Limiter.{Limits}
use gocloak.Net.{AddrPort, addr_beq, addr_port_beq}
use gocloak.Policy.{Allow}

abbrev same_entry : Option AddrPort → AddrPort → Bool
same_entry none v = false
same_entry (some w) v = addr_port_beq v w

unfoldable pub all_in : Allow → Allow → Bool
all_in [] b = true
all_in ((k, v) ∷ a) b = same_entry (lookup k b) v && all_in a b

-- `maps.Equal`
unfoldable pub maps_equal : Allow → Allow → Bool
unfolding all_in
maps_equal a b = nat_beq (length a) (length b) && all_in a b

abbrev limits_beq : Limits → Limits → Bool
limits_beq l m =
    nat_beq l.max_concurrent m.max_concurrent && nat_beq l.dials_per_second m.dials_per_second

-- `peerConfig.equal`
unfoldable pub peer_equal : PeerConfig → PeerConfig → Bool
peer_equal p o =
    bytes_beq p.name o.name
    && bytes_beq p.public_key o.public_key
    && bytes_beq p.psk o.psk
    && addr_beq p.tunnel_ip o.tunnel_ip
    && limits_beq p.limits o.limits
    && maps_equal p.allow o.allow

-- `peerDiff`
pub record PeerDiff : Type 0 where
  pub added : List PeerConfig
  pub removed : List PeerConfig
  pub changed : List PeerConfig

abbrev pub empty_diff : PeerDiff
empty_diff = record { added = []; removed = []; changed = [] }

abbrev no_peers : List PeerConfig → Bool
no_peers [] = true
no_peers (_ ∷ _) = false

-- `peerDiff.IsEmpty`
unfoldable pub diff_is_empty : PeerDiff → Bool
diff_is_empty d = no_peers d.added && no_peers d.removed && no_peers d.changed

-- `prevByKey`, filled in order.
unfoldable pub by_key : List (Bytes × PeerConfig) → List PeerConfig → List (Bytes × PeerConfig)
by_key m [] = m
by_key m (p ∷ ps) = by_key (insert p.public_key p m) ps

abbrev pub keys_of : List PeerConfig → List Bytes
keys_of = map (λ (p : PeerConfig). p.public_key)

-- One round of the loop over the new list.
unfoldable pub note_next : Option PeerConfig → PeerConfig → PeerDiff → PeerDiff
note_next none p d = record d { added = d.added ++ (p ∷ []) }
note_next (some old) p d =
    if not (peer_equal old p) then record d { changed = d.changed ++ (p ∷ []) } else d

unfoldable pub diff_next : List (Bytes × PeerConfig) → List PeerConfig → PeerDiff → PeerDiff
diff_next prev_by_key [] d = d
diff_next prev_by_key (p ∷ ps) d =
    diff_next prev_by_key ps (note_next (lookup p.public_key prev_by_key) p d)

-- The loop over the old list.
unfoldable pub diff_prev : List Bytes → List PeerConfig → PeerDiff → PeerDiff
diff_prev next_keys [] d = d
diff_prev next_keys (p ∷ ps) d =
    diff_prev next_keys ps
      (if contains next_keys p.public_key then d else record d { removed = d.removed ++ (p ∷ []) })

-- `diffPeers`
unfoldable pub diff_peers : List PeerConfig → List PeerConfig → PeerDiff
diff_peers prev next = diff_prev (keys_of next) prev (diff_next (by_key [] prev) next empty_diff)
