-- ===== src/Tests/Policy.antt =====
-- policy.go on one peer.
use gocloak.Base.{◌≡◌, ◌↔◌, refl, List, [], ◌∷◌, some, ok, Any, lookup, insert, bytes_beq}
use gocloak.Net.{unmap, addr_beq}
use gocloak.Policy.Grants.{Grants, resolve-new_policy}
use gocloak.Policy.{PeerPolicy, Policy, copy_allow, add_peer, add_peers, new_policy, resolve}
use gocloak.Tests.Data.{db, laptop, backend, laptop_policy}
use gocloak.Wire.{valid_service_name}

abbrev pub peers : List PeerPolicy
peers = laptop_policy ∷ []

abbrev pub policy : Policy
policy = record { peers = (laptop, (db, backend) ∷ []) ∷ [] }

built : new_policy peers ≡ ok policy
unfolding new_policy add_peers add_peer copy_allow valid_service_name lookup insert unmap addr_beq
built = refl

granted : resolve policy laptop db ≡ some backend
unfolding resolve lookup unmap addr_beq bytes_beq
granted = refl

resolve-new_policy_example :
    (resolve policy laptop db ≡ some backend) ↔ Any (Grants laptop db backend) peers
resolve-new_policy_example = resolve-new_policy peers policy laptop db backend built
