-- ===== src/Controller/Pods/Total.antt =====
-- How many calls of any kind the loop over the pods makes at most.
use vault_unsealer.Prelude.{ℕ, ◌+◌, ◌*◌, Bool, true, false, not, List, length, arith}
use vault_unsealer.Text.{Text}
use vault_unsealer.Result.{Result, ok, err}
use vault_unsealer.Api.{VaultUnsealer}
use vault_unsealer.Cluster.{Env, Call, Trace, Prog, Pod, ApiConfig, SealStatus}
use vault_unsealer.Cluster.Counts.{
  count, AtMost, AtMost-pure, AtMost-perform, AtMost-emit, AtMost-if, AtMost-bind_of,
}
use vault_unsealer.Vault.{get_seal_status}
use vault_unsealer.Controller.Connection.Calls.{create_vault_client-AtMost}
use vault_unsealer.Controller.Pods.{
  Visit, is_pod_ready, after_status, after_client, after_check, check_and_unseal_pod, visit_pod,
  visit_pods,
}
use vault_unsealer.Controller.Pods.Bounds.{submit_keys-AtMost, visit_pods-AtMost}

abbrev pub any_call : Call → Bool
any_call c = true

-- The number of calls of a history.
abbrev pub calls : Trace → ℕ
calls = count any_call

abbrev pub Short {ℓ} : {A : Type ℓ} → ℕ → Prog A → Type ℓ
Short n m = AtMost any_call n m

module _ (env : Env) (keys : List Text) where
  after_status-Short :
      (client : ApiConfig) (r : Result SealStatus)
      → Short (length keys) (after_status env client keys r)
  unfolding after_status
  after_status-Short client (err e) = AtMost-pure _ _
  after_status-Short client (ok s) =
      AtMost-if _ (not s.sealed) _ _ (λ _. AtMost-pure _ _)
        (λ _. submit_keys-AtMost env client keys)

  after_client-Short : (r : Result ApiConfig) → Short (length keys + 1) (after_client env keys r)
  unfolding after_client get_seal_status
  after_client-Short (err e) = AtMost-pure _ _
  after_client-Short (ok client) =
      AtMost-bind_of 1 (length keys) _ _ (omega arith)
        (AtMost-bind_of 1 0 _ _ (omega arith) (AtMost-perform _ _) (λ t. AtMost-pure 0 _))
        (λ t. after_status-Short client _)

  check_and_unseal_pod-Short :
      (pod : Pod) (vu : VaultUnsealer)
      → Short (length keys + 3) (check_and_unseal_pod env pod vu keys)
  unfolding check_and_unseal_pod
  check_and_unseal_pod-Short pod vu =
      AtMost-bind_of 2 (length keys + 1) _ _ (omega arith) (create_vault_client-AtMost env pod vu)
        (λ t. after_client-Short _)

  after_check-Short : (pod : Pod) (v : Visit) (r : Result Bool) → Short 2 (after_check env pod v r)
  unfolding after_check
  after_check-Short pod v (err e) =
      AtMost-bind_of 1 1 _ _ (omega arith) (AtMost-emit _)
        λ t. AtMost-bind_of 1 0 _ _ (omega arith) (AtMost-emit _) (λ u. AtMost-pure 0 _)
  after_check-Short pod v (ok true) =
      AtMost-bind_of 1 1 _ _ (omega arith) (AtMost-emit _) (λ t. AtMost-pure 1 _)
  after_check-Short pod v (ok false) =
      AtMost-bind_of 1 1 _ _ (omega arith) (AtMost-emit _)
        λ t. AtMost-bind_of 1 0 _ _ (omega arith) (AtMost-emit _) (λ u. AtMost-pure 0 _)

  visit_pod-Short : (pod : Pod) (v : Visit) → Short (length keys + 5) (visit_pod env keys pod v)
  unfolding visit_pod
  visit_pod-Short pod v =
      AtMost-if _ (not (is_pod_ready pod)) _ _ (λ _. AtMost-pure _ _)
        λ _.
          AtMost-bind_of (length keys + 3) 2 _ _ (omega arith) (check_and_unseal_pod-Short pod _)
            (λ t. after_check-Short pod _ _)

  pub visit_pods-Short :
      (pods : List Pod) (v : Visit)
      → Short (length pods * (length keys + 5)) (visit_pods env keys pods v)
  visit_pods-Short = visit_pods-AtMost env keys (length keys + 5) visit_pod-Short
