-- ===== src/Secrets/Loader/Calls.antt =====
-- Which secrets the loader reads.
use vault_unsealer.Prelude.{◌≡◌, refl, List, [], ◌∷◌, Memᴰ, Bool, length, arith}
use vault_unsealer.Text.{Text}
use vault_unsealer.Result.{ok, err}
use vault_unsealer.Api.{SecretRef}
use vault_unsealer.Cluster.{Env, Call, get_secret}
use vault_unsealer.Cluster.Emits.{Emits, Emits-bind, Emits-pure, Emits-perform}
use vault_unsealer.Cluster.Counts.{AtMost, AtMost-pure, AtMost-perform, AtMost-bind, AtMost-bind_of}
use vault_unsealer.Secrets.Loader.{
  Collected, add_keys, namespaced_name, load_keys_from_secret, collect, load_unseal_keys,
}
use vault_unsealer.Prelude.{ℤ}

module _ (env : Env) (namespace : Text) (P : Call → Type 0) where
  collect-Emits :
      (refs : List SecretRef) (c : Collected)
      → ((ref : SecretRef) → Memᴰ ref refs → P (get_secret (namespaced_name namespace ref)))
      → Emits P (collect env namespace refs c)
  unfolding collect load_keys_from_secret
  collect-Emits [] c reads = Emits-pure _
  collect-Emits (ref ∷ refs) c reads =
      let loaded : Emits P (load_keys_from_secret env namespace ref) =
        Emits-bind _ _ (Emits-perform _ _ (reads ref (Memᴰ.head refl))) (λ s. Emits-pure _) in
      Emits-bind _ _ loaded elim [
        | err e ↦ Emits-pure _
        | ok keys ↦ collect-Emits refs (add_keys c keys) (λ r m. reads r (Memᴰ.tail m))
      ]

  -- With a property of the calls that read a referenced secret.
  pub load_unseal_keys-Emits :
      (refs : List SecretRef) (threshold : ℤ)
      → ((ref : SecretRef) → Memᴰ ref refs → P (get_secret (namespaced_name namespace ref)))
      → Emits P (load_unseal_keys env namespace refs threshold)
  unfolding load_unseal_keys
  load_unseal_keys-Emits refs threshold reads =
      Emits-bind _ _ (collect-Emits refs _ reads) (λ c. Emits-pure _)

module _ (env : Env) (namespace : Text) {p : Call → Bool} where
  collect-AtMost :
      (refs : List SecretRef) (c : Collected)
      → AtMost p (length refs) (collect env namespace refs c)
  unfolding collect load_keys_from_secret
  collect-AtMost [] c = AtMost-pure 0 _
  collect-AtMost (ref ∷ refs) c =
      AtMost-bind 1 (length refs) _ _ (omega arith)
        (AtMost-bind_of 1 0 _ _ (omega arith) (AtMost-perform _ _) (λ t. AtMost-pure 0 _))
        elim [ err e ↦ AtMost-pure _ _ | ok keys ↦ collect-AtMost refs (add_keys c keys) ]

  -- At most one call for each reference.
  pub load_unseal_keys-AtMost :
      (refs : List SecretRef) (threshold : ℤ)
      → AtMost p (length refs) (load_unseal_keys env namespace refs threshold)
  unfolding load_unseal_keys
  load_unseal_keys-AtMost refs threshold =
      AtMost-bind_of (length refs) 0 _ _ (omega arith) (collect-AtMost refs _)
        (λ t. AtMost-pure 0 _)

-- Whatever the cluster answers, the loader makes no call but to read a referenced secret, in the
-- namespace of the reference or, if that is empty, in the given one.
load_unseal_keys-reads :
    (env : Env) (namespace : Text) (refs : List SecretRef) (threshold : ℤ)
    → Emits
        (λ c. (ref : SecretRef) × Memᴰ ref refs × (c ≡ get_secret (namespaced_name namespace ref)))
        (load_unseal_keys env namespace refs threshold)
load_unseal_keys-reads env namespace refs threshold =
    load_unseal_keys-Emits env namespace _ refs threshold (λ ref m. (ref, m, refl))
