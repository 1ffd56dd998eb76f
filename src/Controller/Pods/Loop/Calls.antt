-- ===== src/Controller/Pods/Loop/Calls.antt =====
-- Which calls the loop over the pods makes.
use vault_unsealer.Prelude.{
  ◌≡◌, ◌≢◌, refl, ap, subst, ◌∙◌, Bool, true, false, not, none, List, [], ◌∷◌, Memᴰ, arith,
}
use vault_unsealer.Text.{Text}
use vault_unsealer.Result.{Result, ok, err}
use vault_unsealer.Api.{VaultConnectionSpec, VaultUnsealerSpec, VaultUnsealer}
use vault_unsealer.Cluster.{
  Env, Call, Prog, Trace, ◌>>=◌, Pod, get_secret, new_api_client, read_seal_status, write_unseal,
  inc, set,
}
use vault_unsealer.Cluster.Emits.{
  Emits, Emits-mono, Emits-bind, Emits-bind_of, Emits-pure, Emits-emit, Emits-if,
}
use vault_unsealer.Controller.Connection.{vault_url}
use vault_unsealer.Controller.Pods.{
  Visit, checked, is_pod_ready, after_check, proceed, check_and_unseal_pod, visit_pod, visit_pods,
}
use vault_unsealer.Controller.Pods.Unsealing.{IsPodCall, check_and_unseal_pod-Emits}

-- The address is that of a ready pod of the list.
abbrev pub IsReadyAddress : VaultConnectionSpec → List Pod → Text → Type 0
IsReadyAddress vault pods address =
    (pod : Pod) × Memᴰ pod pods
    × (is_pod_ready pod ≡ true)
    × (address ≡ vault_url pod.pod_ip vault.url)

-- The calls of the loop: the CA secret is read, metrics are written, Vault is called at the addresses
-- of ready pods, and receives keys of the list.
abbrev pub IsLoopCall : VaultConnectionSpec → List Text → List Pod → Call → Type 0
IsLoopCall vault keys pods (get_secret id) = vault.ca_bundle_secret_ref ≢ none
IsLoopCall vault keys pods (new_api_client config) = IsReadyAddress vault pods config.address
IsLoopCall vault keys pods (read_seal_status client) = IsReadyAddress vault pods client.address
IsLoopCall vault keys pods (write_unseal client key) =
    IsReadyAddress vault pods client.address × Memᴰ key keys
IsLoopCall vault keys pods (inc s) = Unit
IsLoopCall vault keys pods (set s n) = Unit
IsLoopCall _ _ _ _ = ⊥

-- A property of the calls of each visit, under an invariant that every visit keeps, is one of the
-- calls of the loop.
module _ (env : Env) (keys : List Text) (all_pods : List Pod) (P : Call → Type 0)
    (I : Visit → Type 0)
    (keeps : (pod : Pod) (v : Visit) (t : Trace) → I v → I (visit_pod env keys pod v t).0.0)
    (visits : (pod : Pod) (v : Visit)
      → Memᴰ pod all_pods
      → I v
      → Emits P (visit_pod env keys pod v)) where
  proceed-Emits :
      (r : Visit × Bool) (rest : Visit → Prog Visit) → Emits P (rest r.0) → Emits P (proceed r rest)
  unfolding proceed
  proceed-Emits (v, true) rest h = h
  proceed-Emits (v, false) rest h = Emits-pure v

  pub visit_pods-Emits_of :
      (pods : List Pod) (v : Visit)
      → I v
      → ((pod : Pod) → Memᴰ pod pods → Memᴰ pod all_pods)
      → Emits P (visit_pods env keys pods v)
  unfolding visit_pods
  visit_pods-Emits_of [] v h inside = Emits-pure v
  visit_pods-Emits_of (pod ∷ pods) v h inside =
      Emits-bind_of _ _ (visits pod v (inside pod (Memᴰ.head refl)) h) λ t.
        proceed-Emits (visit_pod env keys pod v t).0 (visit_pods env keys pods) (
          visit_pods-Emits_of pods (visit_pod env keys pod v t).0.0 (keeps pod v t h)
            (λ p m. inside p (Memᴰ.tail m)))

module _ (env : Env) (vault : VaultConnectionSpec) (keys : List Text) where
  of_pod :
      (pod : Pod) (pods : List Pod) (c : Call)
      → Memᴰ pod pods
      → is_pod_ready pod ≡ true
      → IsPodCall vault keys (vault_url pod.pod_ip vault.url) c
      → IsLoopCall vault keys pods c
  of_pod pod pods (get_secret id) m y h = h
  of_pod pod pods (new_api_client config) m y h = (pod, m, y, h)
  of_pod pod pods (read_seal_status client) m y h = (pod, m, y, h)
  of_pod pod pods (write_unseal client key) m y h = ((pod, m, y, h.0), h.1)
  of_pod pod pods c m y h = absurd h

  module _ (all_pods : List Pod) where
    abbrev P : Call → Type 0
    P = IsLoopCall vault keys all_pods

    after_check-Emits :
        (pod : Pod) (v : Visit) (r : Result Bool) → Emits P (after_check env pod v r)
    unfolding after_check
    after_check-Emits pod v (err e) =
        Emits-bind _ _ (Emits-emit _ tt) (λ _. Emits-bind _ _ (Emits-emit _ tt) (λ _. Emits-pure _))
    after_check-Emits pod v (ok true) = Emits-bind _ _ (Emits-emit _ tt) (λ _. Emits-pure _)
    after_check-Emits pod v (ok false) =
        Emits-bind _ _ (Emits-emit _ tt) (λ _. Emits-bind _ _ (Emits-emit _ tt) (λ _. Emits-pure _))

    check-Emits :
        (pod : Pod) (vu : VaultUnsealer)
        → vu.spec.vault ≡ vault
        → Memᴰ pod all_pods
        → is_pod_ready pod ≡ true
        → Emits P (check_and_unseal_pod env pod vu keys)
    check-Emits pod vu same m y =
        Emits-mono
          (λ c h.
            of_pod pod all_pods c m y
              (subst (λ w. IsPodCall w keys (vault_url pod.pod_ip w.url) c) same h))
          (check_and_unseal_pod-Emits env vu pod keys)

    pub visit_pod-Emits :
        (pod : Pod) (v : Visit)
        → v.vu.spec.vault ≡ vault
        → Memᴰ pod all_pods
        → Emits P (visit_pod env keys pod v)
    unfolding visit_pod
    visit_pod-Emits pod v same m =
        Emits-if (not (is_pod_ready pod)) _ _ (λ _. Emits-pure _)
          λ y.
            Emits-bind _ _ (check-Emits pod (checked pod v).vu same m (ground arith))
              (λ r. after_check-Emits pod (checked pod v) r)

    -- A visit leaves the specification alone.
    pub spec-visit_pod :
        (pod : Pod) (v : Visit) (t : Trace) → (visit_pod env keys pod v t).0.0.vu.spec ≡ v.vu.spec
    unfolding visit_pod after_check ◌>>=◌
    spec-visit_pod pod v t = ground arith

    visits-Emits :
        (pods : List Pod) (v : Visit)
        → v.vu.spec.vault ≡ vault
        → ((pod : Pod) → Memᴰ pod pods → Memᴰ pod all_pods)
        → Emits P (visit_pods env keys pods v)
    visits-Emits =
        visit_pods-Emits_of env keys all_pods P (λ v. v.vu.spec.vault ≡ vault)
          (λ pod v t same. ap (λ (s : VaultUnsealerSpec). s.vault) (spec-visit_pod pod v t) ∙ same)
          (λ pod v m same. visit_pod-Emits pod v same m)

-- Whatever the pods and their Vaults answer, the loop makes clients and calls Vault only at
-- addresses that are computed for ready pods of the list, and submits only keys of the list; beside
-- that it writes metrics, and reads a secret only if there is a CA bundle reference.
pub visit_pods-Emits :
    (env : Env) (keys : List Text) (pods : List Pod) (v : Visit)
    → Emits (IsLoopCall v.vu.spec.vault keys pods) (visit_pods env keys pods v)
visit_pods-Emits env keys pods v = visits-Emits env v.vu.spec.vault keys pods pods v refl (λ p m. m)
