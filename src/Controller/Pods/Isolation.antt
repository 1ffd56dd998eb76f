-- ===== src/Controller/Pods/Isolation.antt =====
-- The calls of the loop over the pods.
use vault_unsealer.Prelude.{◌≡◌, sym, ap, ◌∙◌, inr, Bool, true, false, not, List, arith}
use vault_unsealer.Text.{Text}
use vault_unsealer.Result.{Result, ok, err}
use vault_unsealer.Api.{VaultUnsealerSpec, VaultUnsealer, NamespacedName}
use vault_unsealer.Cluster.{Env, Trace, ◌>>=◌, Pod}
use vault_unsealer.Cluster.Emits.{Emits, Emits-bind, Emits-pure, Emits-emit, Emits-if}
use vault_unsealer.Cluster.Owner.{key_of}
use vault_unsealer.Secrets.Loader.{namespaced_name}
use vault_unsealer.Controller.Connection.{vault_url}
use vault_unsealer.Controller.Pods.{
  Visit, checked, is_pod_ready, after_check, check_and_unseal_pod, visit_pod, visit_pods,
}
use vault_unsealer.Controller.Pods.Unsealing.{check_and_unseal_pod-Emits_of}
use vault_unsealer.Controller.Pods.Loop.Calls.{visit_pods-Emits_of}
use vault_unsealer.Controller.Isolation.{IsOwn}

-- The same object, but for its status.
abbrev pub IsLike : VaultUnsealer → VaultUnsealer → Type 0
IsLike vu new = (key_of new ≡ key_of vu) × (new.spec ≡ vu.spec)

module _ (env : Env) (vu : VaultUnsealer) (keys : List Text) where
  check-IsOwn :
      (pod : Pod) (new : VaultUnsealer)
      → IsLike vu new
      → Emits (IsOwn vu) (check_and_unseal_pod env pod new keys)
  check-IsOwn pod new (key, spec) =
      let address = ap (λ (s : VaultUnsealerSpec). vault_url pod.pod_ip s.vault.url) spec in
      check_and_unseal_pod-Emits_of env new pod keys (IsOwn vu)
        (λ ref e. (
          ref,
          inr (sym (ap (λ (s : VaultUnsealerSpec). s.vault.ca_bundle_secret_ref) spec) ∙ e),
          ap (λ (k : NamespacedName). namespaced_name k.namespace ref) key,
        ))
        (λ c a. (pod.pod_ip, a ∙ address)) (λ c a. (pod.pod_ip, a ∙ address))
        (λ c k a m. (pod.pod_ip, a ∙ address))

  after_check-IsOwn :
      (pod : Pod) (v : Visit) (r : Result Bool)
      → key_of v.vu ≡ key_of vu
      → Emits (IsOwn vu) (after_check env pod v r)
  unfolding after_check
  after_check-IsOwn pod v (err e) key =
      Emits-bind _ _ (Emits-emit _ key) (λ _. Emits-bind _ _ (Emits-emit _ key) (λ _. Emits-pure _))
  after_check-IsOwn pod v (ok true) key = Emits-bind _ _ (Emits-emit _ key) (λ _. Emits-pure _)
  after_check-IsOwn pod v (ok false) key =
      Emits-bind _ _ (Emits-emit _ key) (λ _. Emits-bind _ _ (Emits-emit _ key) (λ _. Emits-pure _))

  visit_pod-IsOwn :
      (pod : Pod) (v : Visit) → IsLike vu v.vu → Emits (IsOwn vu) (visit_pod env keys pod v)
  unfolding visit_pod
  visit_pod-IsOwn pod v like =
      Emits-if (not (is_pod_ready pod)) _ _ (λ _. Emits-pure _)
        λ y.
          Emits-bind _ _ (check-IsOwn pod (checked pod v).vu like)
            (λ r. after_check-IsOwn pod (checked pod v) r like.0)

  IsLike-visit_pod :
      (pod : Pod) (v : Visit) (t : Trace)
      → IsLike vu v.vu
      → IsLike vu (visit_pod env keys pod v t).0.0.vu
  unfolding visit_pod after_check ◌>>=◌
  IsLike-visit_pod pod v t h = ground arith

  pub visit_pods-IsOwn :
      (pods : List Pod) (v : Visit) → IsLike vu v.vu → Emits (IsOwn vu) (visit_pods env keys pods v)
  visit_pods-IsOwn pods v like =
      visit_pods-Emits_of env keys pods (IsOwn vu) (λ v. IsLike vu v.vu) IsLike-visit_pod
        (λ pod v m like. visit_pod-IsOwn pod v like) pods v like (λ p m. m)
