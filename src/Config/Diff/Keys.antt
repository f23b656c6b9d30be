-- ===== src/Config/Diff/Keys.antt =====
-- config.go, `diffPeers`: the diff seen key by key.
use gocloak.Base.{
  ◌≡◌, ◌≢◌, refl, ap, ◌∙◌, true, false, Bytes, List, [], ◌∷◌, ◌++◌, append-nil, append_assoc,
  Option, none, some, arith, lookup, insert, lookup-insert, contains, bytes_eq, bytes_beq,
  bytes_beq_iff, All, if◌then◌else◌, if-intro,
}
use gocloak.Config.Diff.{
  PeerDiff, empty_diff, peer_equal, by_key, keys_of, note_next, diff_next, diff_prev, diff_peers,
}
use gocloak.Config.Peers.{PeerConfig}

-- The entry of a key.
unfoldable pub find : Bytes → List PeerConfig → Option PeerConfig
find k [] = none
find k (p ∷ ps) = if bytes_beq p.public_key k then some p else find k ps

-- No two entries have one key.
abbrev pub DistinctKeys : List PeerConfig → Type 0
DistinctKeys [] = Unit
DistinctKeys (p ∷ ps) = All (λ (q : PeerConfig). p.public_key ≢ q.public_key) ps × DistinctKeys ps

pub find-none :
    (p : PeerConfig) (ps : List PeerConfig) (k : Bytes)
    → All (λ (q : PeerConfig). p.public_key ≢ q.public_key) ps
    → p.public_key ≡ k
    → find k ps ≡ none
unfolding find
find-none p [] k h e = refl
find-none p (q ∷ ps) k h e = ground (arith, bytes_beq_iff q.public_key k, find-none p ps k h.1 e)

find-append :
    (k : Bytes) (xs ys : List PeerConfig)
    → find k (xs ++ ys) ≡ elim (find k xs) [ none ↦ find k ys | some p ↦ some p ]
unfolding find
find-append k [] ys = refl
find-append k (x ∷ xs) ys = ground (arith, find-append k xs ys)

lookup-by_key :
    (k : Bytes) (ps : List PeerConfig) (m : List (Bytes × PeerConfig))
    → DistinctKeys ps
    → lookup k (by_key m ps) ≡ elim (find k ps) [ none ↦ lookup k m | some p ↦ some p ]
unfolding by_key find
lookup-by_key k [] m d = refl
lookup-by_key k (p ∷ ps) m d = ground (
  arith,
  lookup-by_key k ps (insert p.public_key p m) d.1,
  lookup-insert p.public_key k p m,
  bytes_beq_iff p.public_key k,
  find-none p ps k d.0,
)

-- The three lists that the loops append to.
adds : List (Bytes × PeerConfig) → List PeerConfig → List PeerConfig
adds m [] = []
adds m (p ∷ ps) = elim (lookup p.public_key m) [ none ↦ p ∷ adds m ps | some _ ↦ adds m ps ]

changes : List (Bytes × PeerConfig) → List PeerConfig → List PeerConfig
changes m [] = []
changes m (p ∷ ps) = elim (lookup p.public_key m) [
  | none ↦ changes m ps
  | some old ↦ if peer_equal old p then changes m ps else p ∷ changes m ps
]

removes : List Bytes → List PeerConfig → List PeerConfig
removes ks [] = []
removes ks (p ∷ ps) = if contains ks p.public_key then removes ks ps else p ∷ removes ks ps

diff_next-lists :
    (m : List (Bytes × PeerConfig)) (ps : List PeerConfig) (d : PeerDiff)
    → diff_next m ps d
      ≡ record d { added = d.added ++ adds m ps; changed = d.changed ++ changes m ps }
unfolding diff_next note_next adds changes
diff_next-lists m [] d = ground (arith, append-nil d.added, append-nil d.changed)
diff_next-lists m (p ∷ ps) d =
    diff_next-lists m ps (note_next (lookup p.public_key m) p d)
    ∙ ground (
      arith,
      append_assoc d.added (p ∷ []) (adds m ps),
      append_assoc d.changed (p ∷ []) (changes m ps),
    )

diff_prev-lists :
    (ks : List Bytes) (ps : List PeerConfig) (d : PeerDiff)
    → diff_prev ks ps d ≡ record d { removed = d.removed ++ removes ks ps }
unfolding diff_prev removes
diff_prev-lists ks [] d = rw append-nil
diff_prev-lists ks (p ∷ ps) d =
    diff_prev-lists ks ps _ ∙ ground (arith, append_assoc d.removed (p ∷ []) (removes ks ps))

-- What a key's old and new entry make of it.
abbrev pub added_at : Option PeerConfig → Option PeerConfig → Option PeerConfig
added_at none new = new
added_at (some old) new = none

abbrev pub removed_at : Option PeerConfig → Option PeerConfig → Option PeerConfig
removed_at old none = old
removed_at old (some new) = none

abbrev pub changed_at : Option PeerConfig → Option PeerConfig → Option PeerConfig
changed_at (some old) (some new) = if peer_equal old new then none else some new
changed_at _ _ = none

find-adds :
    (k : Bytes) (m : List (Bytes × PeerConfig)) (ps : List PeerConfig)
    → find k (adds m ps) ≡ added_at (lookup k m) (find k ps)
unfolding find adds
find-adds k m [] = ground arith
find-adds k m (p ∷ ps) = ground (arith, find-adds k m ps, bytes_beq_iff p.public_key k)

find-changes :
    (k : Bytes) (m : List (Bytes × PeerConfig)) (ps : List PeerConfig)
    → DistinctKeys ps
    → find k (changes m ps) ≡ changed_at (lookup k m) (find k ps)
unfolding find changes
find-changes k m [] d = ground arith
find-changes k m (p ∷ ps) d =
    ground (arith, find-changes k m ps d.1, bytes_beq_iff p.public_key k, find-none p ps k d.0)

contains-keys_of :
    (k : Bytes) (ps : List PeerConfig)
    → contains (keys_of ps) k ≡ elim (find k ps) [ none ↦ false | some _ ↦ true ]
unfolding find contains
contains-keys_of k [] = refl
contains-keys_of k (p ∷ ps) = ground (arith, contains-keys_of k ps)

find-removes :
    (k : Bytes) (ks : List Bytes) (ps : List PeerConfig)
    → find k (removes ks ps) ≡ (if contains ks k then none else find k ps)
unfolding find removes
find-removes k ks [] = ground arith
find-removes k ks (p ∷ ps) = ground (arith, find-removes k ks ps, bytes_beq_iff p.public_key k)

diff_peers-lists :
    (prev next : List PeerConfig)
    → diff_peers prev next ≡ record {
      added = adds (by_key [] prev) next;
      removed = removes (keys_of next) prev;
      changed = changes (by_key [] prev) next;
    }
unfolding diff_peers
diff_peers-lists prev next =
    diff_prev-lists (keys_of next) prev _
    ∙ ap (λ (d : PeerDiff). record d { removed = d.removed ++ removes (keys_of next) prev })
        (diff_next-lists (by_key [] prev) next empty_diff)

removes-All :
    (P : PeerConfig → Type 0) (ks : List Bytes) (ps : List PeerConfig)
    → All P ps
    → All P (removes ks ps)
unfolding removes
removes-All P ks [] h = tt
removes-All P ks (p ∷ ps) (h, hs) =
    elim (contains ks p.public_key)
      as (λ b. All P (if b then removes ks ps else p ∷ removes ks ps)) [
        | true ↦ removes-All P ks ps hs
        | false ↦ (h, removes-All P ks ps hs)
      ]

adds-All :
    (P : PeerConfig → Type 0) (m : List (Bytes × PeerConfig)) (ps : List PeerConfig)
    → All P ps
    → All P (adds m ps)
unfolding adds
adds-All P m [] h = tt
adds-All P m (p ∷ ps) (h, hs) =
    elim (lookup p.public_key m)
      as (λ o. All P (elim o [ none ↦ p ∷ adds m ps | some _ ↦ adds m ps ])) [
        | none ↦ (h, adds-All P m ps hs)
        | some _ ↦ adds-All P m ps hs
      ]

changes-All :
    (P : PeerConfig → Type 0) (m : List (Bytes × PeerConfig)) (ps : List PeerConfig)
    → All P ps
    → All P (changes m ps)
unfolding changes
changes-All P m [] h = tt
changes-All P m (p ∷ ps) (h, hs) =
    elim (lookup p.public_key m)
      as (λ o. All P (elim o [
        | none ↦ changes m ps
        | some old ↦ if peer_equal old p then changes m ps else p ∷ changes m ps
      ])) [
        | none ↦ changes-All P m ps hs
        | some old ↦
            if-intro (All P) (peer_equal old p) (λ same. changes-All P m ps hs)
              (λ other. (h, changes-All P m ps hs))
      ]

-- What holds of every entry of the old list holds of every removed one, and what holds of every entry of
-- the new list holds of every added and every changed one.
pub diff_peers-All-prev :
    (P : PeerConfig → Type 0) (prev next : List PeerConfig)
    → All P prev
    → All P (diff_peers prev next).removed
diff_peers-All-prev P prev next h =
    rw (diff_peers-lists prev next) (removes-All P (keys_of next) prev h)

pub diff_peers-All-next :
    (P : PeerConfig → Type 0) (prev next : List PeerConfig)
    → All P next
    → All P (diff_peers prev next).added × All P (diff_peers prev next).changed
diff_peers-All-next P prev next h =
    rw (diff_peers-lists prev next)
      (adds-All P (by_key [] prev) next h, changes-All P (by_key [] prev) next h)

pub diff_peers-removed :
    (prev next : List PeerConfig) (k : Bytes)
    → find k (diff_peers prev next).removed ≡ removed_at (find k prev) (find k next)
diff_peers-removed prev next k =
    rw (diff_peers-lists prev next)
      (ground (arith, find-removes k (keys_of next) prev, contains-keys_of k next))

-- The diff as a function of a key's old and new entry.
pub diff_peers_exact :
    (prev next : List PeerConfig) (k : Bytes)
    → DistinctKeys prev
    → DistinctKeys next
    → (find k (diff_peers prev next).added ≡ added_at (find k prev) (find k next))
      × (find k (diff_peers prev next).removed ≡ removed_at (find k prev) (find k next))
      × (find k (diff_peers prev next).changed ≡ changed_at (find k prev) (find k next))
diff_peers_exact prev next k dp dn =
    let lists = diff_peers-lists prev next in
    let table = lookup-by_key k prev [] dp in
    rw lists (
      unfold lookup in ground (arith, find-adds k (by_key [] prev) next, table),
      ground (arith, find-removes k (keys_of next) prev, contains-keys_of k next),
      unfold lookup in ground (arith, find-changes k (by_key [] prev) next dn, table),
    )
