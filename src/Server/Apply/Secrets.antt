-- ===== src/Server/Apply/Secrets.antt =====
-- server.go, `pruneSecretCache`: which key material stays in memory after a reload.
use gocloak.Base.{
  ◌≡◌, bytes_eq, bytes_beq_iff, List, [], ◌∷◌, none, arith, lookup, contains, if◌then◌else◌,
}
use gocloak.Config.Peers.{PeerConfig}
use gocloak.Secret.{SecretRef}
use gocloak.Server.Apply.{Cache, prune_secret_cache, references}

lookup-prune_secret_cache :
    (in_use : List SecretRef) (cache : Cache) (ref : SecretRef)
    → lookup ref (prune_secret_cache in_use cache)
      ≡ (if contains in_use ref then lookup ref cache else none)
unfolding lookup prune_secret_cache
lookup-prune_secret_cache in_use [] ref = ground arith
lookup-prune_secret_cache in_use ((kept, value) ∷ cache) ref =
    ground (arith, lookup-prune_secret_cache in_use cache ref, bytes_beq_iff kept ref)

-- After a prune the cache holds the same value as before for the server's own reference and for the PSK
-- reference of every peer of the list, and no value for any other reference.
pub prune_secret_cache_exact :
    (private_key : SecretRef) (peers : List PeerConfig) (cache : Cache) (ref : SecretRef)
    → lookup ref (prune_secret_cache (references private_key peers) cache)
      ≡ (if contains (references private_key peers) ref then lookup ref cache else none)
prune_secret_cache_exact private_key peers =
    lookup-prune_secret_cache (references private_key peers)
