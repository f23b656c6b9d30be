-- ===== src/Config/Diff/Exact.antt =====
-- config.go, `diffPeers`: the diff against what the entries say.
use gocloak.Base.{
  ◌≡◌, ◌↔◌, refl, ap, sym, subst, ◌∙◌, Bytes, List, [], ◌∷◌, Bool-cases, bytes_beq, none, some,
  arith, UniqueKeys, bytes_eq, inl, inr, All, true, false, Option,
}
use gocloak.Config.Diff.Equal.{SameEntry, peer_equal-SameEntry}
use gocloak.Config.Diff.Keys.{
  find, DistinctKeys, added_at, removed_at, changed_at, diff_peers_exact,
}
use gocloak.Config.Diff.{diff_peers, peer_equal}
use gocloak.Config.Peers.{PeerConfig}

-- Each allow map holds a name once, as a Go map does.
abbrev pub MapsAllowed : List PeerConfig → Type 0
MapsAllowed = All (λ (p : PeerConfig). UniqueKeys p.allow)

find-All :
    (P : PeerConfig → Type 0) (k : Bytes) (ps : List PeerConfig) {p : PeerConfig}
    → All P ps
    → find k ps ≡ some p
    → P p
unfolding find
find-All P k [] {p} h e = absurd (ground arith)
find-All P k (q ∷ ps) {p} h e = elim (Bool-cases (bytes_beq q.public_key k)) [
  | inl here ↦ let same : q ≡ p = ground arith in subst P same h.0
  | inr later ↦ find-All P k ps h.1 (ground arith)
]

-- The entry that a key gets with `next`, where `prev` had none.
abbrev pub IsAdded : Bytes → List PeerConfig → List PeerConfig → PeerConfig → Type 0
IsAdded k prev next p = (find k prev ≡ none) × (find k next ≡ some p)

-- The entry that a key has in `next`, where `prev` had one that says something else.
abbrev pub IsChanged : Bytes → List PeerConfig → List PeerConfig → PeerConfig → Type 0
IsChanged k prev next p =
    (old : PeerConfig) × (find k prev ≡ some old) × (find k next ≡ some p) × (¬ SameEntry old p)

added_at_iff :
    (old new : Option PeerConfig) (p : PeerConfig)
    → (added_at old new ≡ some p) ↔ ((old ≡ none) × (new ≡ some p))
added_at_iff none new p = ground arith
added_at_iff (some q) new p = ground arith

removed_at_iff :
    (old new : Option PeerConfig) (p : PeerConfig)
    → (removed_at old new ≡ some p) ↔ ((new ≡ none) × (old ≡ some p))
removed_at_iff old none p = ground arith
removed_at_iff old (some q) p = ground arith

changed_at-to :
    (old new : Option PeerConfig) (p : PeerConfig)
    → changed_at old new ≡ some p
    → (q : PeerConfig) × (old ≡ some q) × (new ≡ some p) × (peer_equal q p ≡ false)
changed_at-to none none p h = absurd (ground arith)
changed_at-to none (some n) p h = absurd (ground arith)
changed_at-to (some o) none p h = absurd (ground arith)
changed_at-to (some o) (some n) p h = elim (Bool-cases (peer_equal o n)) [
  | inl same ↦ absurd (ground arith)
  | inr other ↦ let is : n ≡ p = ground arith in (o, refl, ap some is, rw (← is) other)
]

-- Between two peer lists, each with distinct keys, and whose allow maps hold a name once: the diff has
-- under a key, as added, exactly the entry of the new list if the old one has none; as removed, exactly the
-- entry of the old list if the new one has none; and as changed, exactly the entry of the new list if the
-- old one's entry differs from it in the name, the key, the PSK reference, the tunnel address, a limit or
-- what the allow map gives for some name.
pub diff_peers_iff :
    (prev next : List PeerConfig) (k : Bytes) (p : PeerConfig)
    → DistinctKeys prev
    → DistinctKeys next
    → MapsAllowed prev
    → MapsAllowed next
    → ((find k (diff_peers prev next).added ≡ some p) ↔ IsAdded k prev next p)
      × ((find k (diff_peers prev next).removed ≡ some p) ↔ IsAdded k next prev p)
      × ((find k (diff_peers prev next).changed ≡ some p) ↔ IsChanged k prev next p)
diff_peers_iff prev next k p dp dn mp mn = (
  rw e.0 (added_at_iff (find k prev) (find k next) p),
  rw e.1 (removed_at_iff (find k prev) (find k next) p),
  (to, from),
)
  where
    e :
        (find k (diff_peers prev next).added ≡ added_at (find k prev) (find k next))
        × (find k (diff_peers prev next).removed ≡ removed_at (find k prev) (find k next))
        × (find k (diff_peers prev next).changed ≡ changed_at (find k prev) (find k next))
    e = diff_peers_exact prev next k dp dn

    equal :
        (q : PeerConfig)
        → find k prev ≡ some q
        → find k next ≡ some p
        → (peer_equal q p ≡ true) ↔ SameEntry q p
    equal q was is =
        peer_equal-SameEntry q p (find-All (λ (r : PeerConfig). UniqueKeys r.allow) k prev mp was)
          (find-All (λ (r : PeerConfig). UniqueKeys r.allow) k next mn is)

    to : find k (diff_peers prev next).changed ≡ some p → IsChanged k prev next p
    to h =
        let (q, was, is, differ) = changed_at-to (find k prev) (find k next) p (sym e.2 ∙ h) in
        (q, was, is, λ same. cc ((equal q was is).1 same, differ))

    from : IsChanged k prev next p → find k (diff_peers prev next).changed ≡ some p
    from (q, was, is, differ) = elim (Bool-cases (peer_equal q p)) [
      | inl same ↦ absurd (differ ((equal q was is).0 same))
      | inr other ↦ e.2 ∙ ground (arith, was, is, other)
    ]
