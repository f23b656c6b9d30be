-- ===== src/Config/Diff/Equal.antt =====
-- config.go, `peerConfig.equal`: when two entries are the same.
use gocloak.Base.{
  suc, ◌≤◌, ◌≡◌, ◌↔◌, refl, sym, ◌∙◌, true, Bytes, [], ◌∷◌, none, some, arith, lookup, length,
  UniqueKeys, bytes_eq, bytes_beq, bytes_beq_iff, Option-cases, inl, inr, if◌then◌else◌,
}
use gocloak.Config.Diff.{all_in, maps_equal, peer_equal}
use gocloak.Config.Peers.{PeerConfig}
use gocloak.Net.{AddrPort, addr_beq_iff, addr_port_beq_iff}
use gocloak.Policy.{Allow}

-- Every entry of the first map is in the second.
abbrev Within : Allow → Allow → Type 0
Within a b = (k : Bytes) (v : AddrPort) → lookup k a ≡ some v → lookup k b ≡ some v

without : Bytes → Allow → Allow
without j [] = []
without j ((k, v) ∷ b) = if bytes_beq k j then without j b else (k, v) ∷ without j b

lookup-without :
    (j k : Bytes) (b : Allow)
    → lookup k (without j b) ≡ (if bytes_beq j k then none else lookup k b)
unfolding without lookup
lookup-without j k [] = ground arith
lookup-without j k ((i, v) ∷ b) =
    ground (arith, lookup-without j k b, bytes_beq_iff i j, bytes_beq_iff i k, bytes_beq_iff j k)

length-without-le : (j : Bytes) (b : Allow) → length (without j b) ≤ length b
unfolding without
length-without-le j [] = omega arith
length-without-le j ((i, v) ∷ b) = ground (arith, length-without-le j b)

length-without :
    (j : Bytes) (b : Allow) (v : AddrPort)
    → lookup j b ≡ some v
    → suc (length (without j b)) ≤ length b
unfolding without lookup
length-without j [] v h = absurd (ground arith)
length-without j ((i, w) ∷ b) v h = ground (arith, length-without-le j b, length-without j b v)

Within-rest :
    (j : Bytes) (v : AddrPort) (a b : Allow)
    → lookup j a ≡ none
    → Within ((j, v) ∷ a) b
    → Within a (without j b)
unfolding lookup
Within-rest j v a b fresh h k w e = ground (arith, lookup-without j k b, h k w, bytes_beq_iff j k)

Within-first :
    (j : Bytes) (v : AddrPort) (a b : Allow) → Within ((j, v) ∷ a) b → lookup j b ≡ some v
unfolding lookup
Within-first j v a b h = h j v (ground (arith, bytes_beq_iff j j))

Within-length : (a b : Allow) → UniqueKeys a → Within a b → length a ≤ length b
Within-length [] b u h = omega arith
Within-length ((j, v) ∷ a) b (fresh, u) h = omega (
  arith,
  Within-length a (without j b) u (Within-rest j v a b fresh h),
  length-without j b v (Within-first j v a b h),
)

all_in-Within : (a b : Allow) → all_in a b ≡ true → Within a b
unfolding all_in lookup
all_in-Within [] b h k v e = absurd (ground arith)
all_in-Within ((j, w) ∷ a) b h k v e = elim (Option-cases (lookup j b)) [
  | inl missing ↦ absurd (ground arith)
  | inr (x, there) ↦
      let rest : Within a b = all_in-Within a b (ground arith) in
      ground (arith, rest k v, there, bytes_beq_iff j k, addr_port_beq_iff w x)
]

Within-tail :
    (j : Bytes) (v : AddrPort) (a b : Allow)
    → lookup j a ≡ none
    → Within ((j, v) ∷ a) b
    → Within a b
unfolding lookup
Within-tail j v a b fresh h k w e = ground (arith, h k w, bytes_beq_iff j k)

all_in-intro : (a b : Allow) → UniqueKeys a → Within a b → all_in a b ≡ true
unfolding all_in
all_in-intro [] b u h = refl
all_in-intro ((j, w) ∷ a) b (fresh, u) h = ground (
  arith,
  Within-first j w a b h,
  all_in-intro a b u (Within-tail j w a b fresh h),
  addr_port_beq_iff w w,
)

-- Two Go maps hold the same: whatever key is looked up.
abbrev pub SameMap : Allow → Allow → Type 0
SameMap a b = (k : Bytes) → lookup k a ≡ lookup k b

maps_equal-SameMap :
    (a b : Allow) → UniqueKeys a → UniqueKeys b → maps_equal a b ≡ true → SameMap a b
unfolding maps_equal
maps_equal-SameMap a b ua ub h k =
    let within : Within a b = all_in-Within a b (ground arith) in
    elim (Option-cases (lookup k a)) [
      | inr (v, e) ↦ e ∙ sym (within k v e)
      | inl missing ↦ elim (Option-cases (lookup k b)) [
        | inl missing_too ↦ missing ∙ sym missing_too
        | inr (w, there) ↦
            let elsewhere : Within a (without k b) =
              λ j v e. ground (arith, lookup-without k j b, within j v e, bytes_beq_iff k j) in
            let short = Within-length a (without k b) ua elsewhere in
            absurd (ground (arith, length-without k b w there, short))
      ]
    ]

SameMap-maps_equal :
    (a b : Allow) → UniqueKeys a → UniqueKeys b → SameMap a b → maps_equal a b ≡ true
unfolding maps_equal
SameMap-maps_equal a b ua ub same =
    let there : Within a b = λ k v e. sym (same k) ∙ e in
    let back : Within b a = λ k v e. same k ∙ e in
    ground (arith, Within-length a b ua there, Within-length b a ub back, all_in-intro a b ua there)

-- Two entries say the same.
pub record SameEntry (p q : PeerConfig) : Type 0 where
  pub name : p.name ≡ q.name
  pub public_key : p.public_key ≡ q.public_key
  pub psk : p.psk ≡ q.psk
  pub tunnel_ip : p.tunnel_ip ≡ q.tunnel_ip
  pub limits : p.limits ≡ q.limits
  pub allow : SameMap p.allow q.allow

pub peer_equal-SameEntry :
    (p q : PeerConfig)
    → UniqueKeys p.allow
    → UniqueKeys q.allow
    → (peer_equal p q ≡ true) ↔ SameEntry p q
unfolding peer_equal
peer_equal-SameEntry p q up uq = (
  (λ h. record {
    name = ground (arith, bytes_beq_iff p.name q.name);
    public_key = ground (arith, bytes_beq_iff p.public_key q.public_key);
    psk = ground (arith, bytes_beq_iff p.psk q.psk);
    tunnel_ip = ground (arith, addr_beq_iff p.tunnel_ip q.tunnel_ip);
    limits = ground arith;
    allow = maps_equal-SameMap p.allow q.allow up uq (ground arith);
  }),
  λ s. ground (
    arith,
    bytes_beq_iff p.name q.name,
    bytes_beq_iff p.public_key q.public_key,
    bytes_beq_iff p.psk q.psk,
    addr_beq_iff p.tunnel_ip q.tunnel_ip,
    SameMap-maps_equal p.allow q.allow up uq s.allow,
    s.name,
    s.public_key,
    s.psk,
    s.tunnel_ip,
    s.limits,
  ),
)
