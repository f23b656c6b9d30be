-- ===== src/Policy/Grants.antt =====
-- policy.go, `newPolicy` with `Resolve`: default deny, and nothing is granted that no peer entry lists.
use gocloak.Base.{
  ◌<◌, ◌≡◌, ◌≢◌, ◌↔◌, ◌⊎◌, inl, inr, refl, ap, true, false, Bytes, List, [], ◌∷◌, none, some, ok,
  arith, lookup, All, Any, Result-cases, bytes_eq, bytes_beq_iff,
}
use gocloak.Net.{Addr, invalid, v4, v6, AddrPort, unmap, unmap-unmap, addr_eq, addr_beq_iff}
use gocloak.Policy.Build.{
  IsAllow, IsPeer, Added, granted, add_peer-Added, add_peer_total, lookup-Added, granted-Added,
}
use gocloak.Policy.{
  Allow, PeerPolicy, Policy, bad_backend, add_peer, add_peers, new_policy, resolve,
}
use gocloak.Wire.{valid_service_name}
use gocloak.Wire.Names.{IsServiceName, valid_service_name_iff}

-- The entry of a peer grants the service to the address, at this backend.
abbrev pub Grants : Addr → Bytes → AddrPort → PeerPolicy → Type 0
Grants ip service backend p =
    (unmap p.tunnel_ip ≡ unmap ip) × (lookup service p.allow ≡ some backend)

module _ (ip : Addr) (service : Bytes) (backend : AddrPort) where
  granted-add_peers :
      (ps : List PeerPolicy) (m m' : List (Addr × Allow))
      → add_peers ps m ≡ ok m'
      → (granted m' (unmap ip) service ≡ some backend)
        ↔ ((granted m (unmap ip) service ≡ some backend) ⊎ Any (Grants ip service backend) ps)
  unfolding add_peers
  granted-add_peers [] m m' h = ((λ g. inl (ground arith)), λ g. ground arith)
  granted-add_peers (p ∷ ps) m m' h = elim (Result-cases (add_peer p m)) [
    | inr (x, e) ↦ absurd (ground arith)
    | inl (m1, e) ↦
        let a = add_peer-Added p m m1 e in
        let ih = granted-add_peers ps m1 m' (ground arith) in
        let step = granted-Added a (unmap ip) service in
        let same = addr_beq_iff (unmap p.tunnel_ip) (unmap ip) in
        ((λ g. ground (arith, ih.0 g, step, same)), λ g. ih.1 (ground (arith, step, same, a.fresh)))
  ]

-- A policy built from peer entries grants a service to an address, at a backend, exactly if the entry
-- of some peer with that tunnel address lists that service with that backend. Addresses are compared
-- after `Unmap`. So an unknown peer and an unlisted service are denied alike.
pub resolve-new_policy :
    (ps : List PeerPolicy) (pol : Policy) (ip : Addr) (service : Bytes) (backend : AddrPort)
    → new_policy ps ≡ ok pol
    → (resolve pol ip service ≡ some backend) ↔ Any (Grants ip service backend) ps
unfolding resolve new_policy lookup
resolve-new_policy ps pol ip service backend h = elim (Result-cases (add_peers ps [])) [
  | inr (x, e) ↦ absurd (ground arith)
  | inl (m, e) ↦
      let all = granted-add_peers ip service backend ps [] m e in
      ((λ g. ground (arith, all.0)), λ g. ground (arith, all.1 (inr g)))
]

-- No two peers have one tunnel address.
abbrev pub Distinct : List PeerPolicy → Type 0
Distinct [] = Unit
Distinct (p ∷ ps) = All (λ (q : PeerPolicy). unmap p.tunnel_ip ≢ unmap q.tunnel_ip) ps × Distinct ps

abbrev Fresh : List (Addr × Allow) → List PeerPolicy → Type 0
Fresh m = All (λ (p : PeerPolicy). lookup (unmap p.tunnel_ip) m ≡ none)

Fresh-Added :
    {p : PeerPolicy} {m m' : List (Addr × Allow)}
    → Added p m m'
    → (ps : List PeerPolicy)
    → Fresh m' ps
      ↔ (Fresh m ps × All (λ (q : PeerPolicy). unmap p.tunnel_ip ≢ unmap q.tunnel_ip) ps)
Fresh-Added a [] = ((λ _. (tt, tt)), λ _. tt)
Fresh-Added {p} a (q ∷ ps) =
    let ih = Fresh-Added a ps in
    let here = lookup-Added a (unmap q.tunnel_ip) in
    let same = addr_beq_iff (unmap p.tunnel_ip) (unmap q.tunnel_ip) in
    (
      (λ f.
          ((ground (arith, here, same), (ih.0 f.1).0), (ground (arith, here, same), (ih.0 f.1).1))),
      λ f. (ground (arith, here, same), ih.1 (f.0.1, f.1.1)),
    )

add_peers-valid :
    (ps : List PeerPolicy) (m m' : List (Addr × Allow))
    → add_peers ps m ≡ ok m'
    → All IsPeer ps × Distinct ps × Fresh m ps
unfolding add_peers
add_peers-valid [] m m' h = (tt, tt, tt)
add_peers-valid (p ∷ ps) m m' h = elim (Result-cases (add_peer p m)) [
  | inr (x, e) ↦ absurd (ground arith)
  | inl (m1, e) ↦
      let a = add_peer-Added p m m1 e in
      let (peers, distinct, fresh) = add_peers-valid ps m1 m' (ground arith) in
      let apart = (Fresh-Added a ps).0 fresh in
      ((a.peer, peers), (apart.1, distinct), (a.fresh, apart.0))
]

add_peers_total :
    (ps : List PeerPolicy) (m : List (Addr × Allow))
    → All IsPeer ps
    → Distinct ps
    → Fresh m ps
    → (m' : List (Addr × Allow)) × (add_peers ps m ≡ ok m')
unfolding add_peers
add_peers_total [] m v d f = (m, refl)
add_peers_total (p ∷ ps) m v d f =
    let (m1, e) = add_peer_total p m v.0 f.0 in
    let (m', e') =
      add_peers_total ps m1 v.1 d.1 ((Fresh-Added (add_peer-Added p m m1 e) ps).1 (f.1, d.0)) in
    (m', rw e e')

-- `newPolicy` succeeds exactly if every peer has a valid, specified tunnel address and an allow map of
-- valid service names and usable backends, and no two peers have the same address after `Unmap`.
pub new_policy-ok_iff :
    (ps : List PeerPolicy)
    → ((pol : Policy) × (new_policy ps ≡ ok pol)) ↔ (All IsPeer ps × Distinct ps)
unfolding new_policy lookup
new_policy-ok_iff ps = (to, from)
  where
    to : ((pol : Policy) × (new_policy ps ≡ ok pol)) → All IsPeer ps × Distinct ps
    to (pol, h) = elim (Result-cases (add_peers ps [])) [
      | inr (x, e) ↦ absurd (ground arith)
      | inl (m, e) ↦ let v = add_peers-valid ps [] m e in (v.0, v.1)
    ]

    nothing : (qs : List PeerPolicy) → Fresh [] qs
    nothing [] = tt
    nothing (q ∷ qs) = (refl, nothing qs)

    from : All IsPeer ps × Distinct ps → (pol : Policy) × (new_policy ps ≡ ok pol)
    from (v, d) =
        let (m, e) = add_peers_total ps [] v d (nothing ps) in (record { peers = m }, rw e refl)

-- A backend that can be dialled.
abbrev pub IsUsable : AddrPort → Type 0
IsUsable b = (b.addr ≢ invalid) × (b.addr ≢ v4 0) × (b.addr ≢ v6 0 []) × (0 < b.port)

bad_backend-IsUsable : (b : AddrPort) → bad_backend b ≡ false → IsUsable b
bad_backend-IsUsable b h = (
  (λ e. ground arith),
  (λ e. ground (arith, addr_beq_iff b.addr (v4 0))),
  (λ e. ground (arith, addr_beq_iff b.addr (v6 0 []))),
  ground arith,
)

lookup-IsAllow :
    (a : Allow) (service : Bytes) (backend : AddrPort)
    → IsAllow a
    → lookup service a ≡ some backend
    → (valid_service_name service ≡ true) × (bad_backend backend ≡ false)
unfolding lookup
lookup-IsAllow [] service backend v h = absurd (ground arith)
lookup-IsAllow ((n, b) ∷ a) service backend v h =
    ground (arith, bytes_beq_iff n service, lookup-IsAllow a service backend v.1)

-- Whatever a built policy grants is a service name of the wire protocol's charset, at a backend whose
-- address is valid and not 0.0.0.0 or ::, and whose port is not zero.
pub resolve-IsUsable :
    (ps : List PeerPolicy) (pol : Policy) (ip : Addr) (service : Bytes) (backend : AddrPort)
    → new_policy ps ≡ ok pol
    → resolve pol ip service ≡ some backend
    → IsServiceName service × IsUsable backend
resolve-IsUsable ps pol ip service backend h g =
    go ps ((new_policy-ok_iff ps).0 (pol, h)).0
      ((resolve-new_policy ps pol ip service backend h).0 g)
  where
    go :
        (qs : List PeerPolicy)
        → All IsPeer qs
        → Any (Grants ip service backend) qs
        → IsServiceName service × IsUsable backend
    go [] v a = absurd a
    go (q ∷ qs) v (inl here) =
        let (name, usable) = lookup-IsAllow q.allow service backend v.0.allowed here.1 in
        ((valid_service_name_iff service).0 name, bad_backend-IsUsable backend usable)
    go (q ∷ qs) v (inr later) = go qs v.1 later

-- The spelling of the address does not matter.
pub resolve-unmap :
    (pol : Policy) (ip : Addr) (service : Bytes)
    → resolve pol (unmap ip) service ≡ resolve pol ip service
unfolding resolve
resolve-unmap pol ip service = ap (λ k. granted pol.peers k service) (unmap-unmap ip)
