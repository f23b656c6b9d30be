-- ===== src/Policy/Build.antt =====
-- policy.go, `newPolicy`: what it builds from each peer, and when it refuses.
use gocloak.Base.{
  ◌≡◌, inl, inr, refl, true, false, Bytes, List, [], ◌∷◌, Option, none, some, ok, arith, lookup,
  insert, lookup-insert, has_key, if◌then◌else◌, All, bytes_eq, Result-cases,
}
use gocloak.Net.{Addr, AddrPort, unmap, is_valid, is_unspecified, addr_eq, addr_beq}
use gocloak.Policy.{Allow, PeerPolicy, bad_backend, copy_allow, add_peer}
use gocloak.Wire.{valid_service_name}

-- An allow map whose every entry passes the checks.
abbrev pub IsAllow : Allow → Type 0
IsAllow = All (λ (entry : Bytes × AddrPort).
    (valid_service_name entry.0 ≡ true) × (bad_backend entry.1 ≡ false))

pub copy_allow-IsAllow : (ip : Addr) (a copy : Allow) → copy_allow ip a ≡ ok copy → IsAllow a
unfolding copy_allow
copy_allow-IsAllow ip [] copy h = tt
copy_allow-IsAllow ip ((n, b) ∷ a) copy h = elim (Result-cases (copy_allow ip a)) [
  | inl (rest, e) ↦ (ground arith, copy_allow-IsAllow ip a rest e)
  | inr (x, e) ↦ absurd (ground arith)
]

pub copy_allow-lookup :
    (ip : Addr) (a copy : Allow) (name : Bytes)
    → copy_allow ip a ≡ ok copy
    → lookup name copy ≡ lookup name a
unfolding copy_allow lookup
copy_allow-lookup ip [] copy name h = ground arith
copy_allow-lookup ip ((n, b) ∷ a) copy name h = elim (Result-cases (copy_allow ip a)) [
  | inl (rest, e) ↦ ground (arith, copy_allow-lookup ip a rest name e, lookup-insert n name b rest)
  | inr (x, e) ↦ absurd (ground arith)
]

pub copy_allow_total :
    (ip : Addr) (a : Allow) → IsAllow a → (copy : Allow) × (copy_allow ip a ≡ ok copy)
unfolding copy_allow
copy_allow_total ip [] v = ([], refl)
copy_allow_total ip ((n, b) ∷ a) v =
    let (copy, e) = copy_allow_total ip a v.1 in (insert n b copy, ground arith)

-- A peer that passes every check of its own.
pub record IsPeer (p : PeerPolicy) : Type 0 where
  pub valid : is_valid p.tunnel_ip ≡ true
  pub specified : is_unspecified (unmap p.tunnel_ip) ≡ false
  pub allowed : IsAllow p.allow

-- What a table of allow maps grants.
abbrev pub granted : List (Addr × Allow) → Addr → Bytes → Option AddrPort
granted m ip service = elim (lookup ip m) [ none ↦ none | some allow ↦ lookup service allow ]

-- What one round of the loop did.
pub record Added (p : PeerPolicy) (m m' : List (Addr × Allow)) : Type 0 where
  pub peer : IsPeer p
  pub fresh : lookup (unmap p.tunnel_ip) m ≡ none
  pub entry : Allow
  pub same : (service : Bytes) → lookup service entry ≡ lookup service p.allow
  pub result : m' ≡ insert (unmap p.tunnel_ip) entry m

has_key-eq-false : (ip : Addr) (m : List (Addr × Allow)) → has_key ip m ≡ false → lookup ip m ≡ none
has_key-eq-false ip m h = ground arith

pub add_peer-Added :
    (p : PeerPolicy) (m m' : List (Addr × Allow)) → add_peer p m ≡ ok m' → Added p m m'
unfolding add_peer
add_peer-Added p m m' h = elim (Result-cases (copy_allow (unmap p.tunnel_ip) p.allow)) [
  | inl (entry, e) ↦ record {
    peer = record {
      valid = ground arith;
      specified = ground arith;
      allowed = copy_allow-IsAllow (unmap p.tunnel_ip) p.allow entry e;
    };
    fresh = ground arith;
    entry = entry;
    same = λ service. copy_allow-lookup (unmap p.tunnel_ip) p.allow entry service e;
    result = ground arith;
  }
  | inr (x, e) ↦ absurd (ground arith)
]

pub add_peer_total :
    (p : PeerPolicy) (m : List (Addr × Allow))
    → IsPeer p
    → lookup (unmap p.tunnel_ip) m ≡ none
    → (m' : List (Addr × Allow)) × (add_peer p m ≡ ok m')
unfolding add_peer
add_peer_total p m v fresh =
    let (entry, e) = copy_allow_total (unmap p.tunnel_ip) p.allow v.allowed in
    (insert (unmap p.tunnel_ip) entry m, ground (arith, v.valid, v.specified))

module _ {p : PeerPolicy} {m m' : List (Addr × Allow)} (a : Added p m m') where
  pub lookup-Added :
      (k : Addr)
      → lookup k m' ≡ (if addr_beq (unmap p.tunnel_ip) k then some a.entry else lookup k m)
  lookup-Added k = rw a.result (lookup-insert (unmap p.tunnel_ip) k a.entry m)

  pub granted-Added :
      (k : Addr) (service : Bytes)
      → granted m' k service
        ≡ (if addr_beq (unmap p.tunnel_ip) k then lookup service p.allow else granted m k service)
  granted-Added k service = ground (arith, lookup-Added k, a.same service)
