-- ===== src/Controller/Pods/Bounds.antt =====
-- How many keys the loop over the pods submits at most.
use vault_unsealer.Prelude.{ℕ, ◌*◌, refl, Bool, true, false, not, List, [], ◌∷◌, length, arith}
use vault_unsealer.Text.{Text}
use vault_unsealer.Result.{Result, ok, err}
use vault_unsealer.Api.{VaultUnsealer}
use vault_unsealer.Cluster.{
  Env, Call, Trace, Prog, Pod, ApiConfig, SealStatus, UnsealResponse, write_unseal,
}
use vault_unsealer.Cluster.Emits.{Emits-bind, Emits-pure, Emits-emit, Emits-perform}
use vault_unsealer.Cluster.Counts.{
  count, AtMost, AtMost-of_Emits, AtMost-pure, AtMost-perform, AtMost-if, AtMost-bind_of,
}
use vault_unsealer.Vault.{get_seal_status, unseal}
use vault_unsealer.Controller.Connection.Calls.{create_vault_client-Emits}
use vault_unsealer.Controller.Pods.{
  Visit, is_pod_ready, after_answer, after_status, after_client, after_check, proceed, submit_keys,
  check_and_unseal_pod, visit_pod, visit_pods,
}

-- The call submits a key.
abbrev pub is_submission : Call → Bool
is_submission (write_unseal client key) = true
is_submission c = false

abbrev pub submissions : Trace → ℕ
submissions = count is_submission

module _ (env : Env) where
  abbrev Few {ℓ} : {A : Type ℓ} → ℕ → Prog A → Type ℓ
  Few n m = AtMost is_submission n m

  module _ {p : Call → Bool} where
    after_answer-AtMost :
        (n : ℕ) (r : Result UnsealResponse) (rest : Prog (Result Bool))
        → AtMost p n rest
        → AtMost p n (after_answer r rest)
    unfolding after_answer
    after_answer-AtMost n (err e) rest h = AtMost-pure n _
    after_answer-AtMost n (ok r) rest h =
        AtMost-if n (not r.sealed) _ _ (λ _. AtMost-pure n _) (λ _. h)

    -- of whatever kind
    pub submit_keys-AtMost :
        (client : ApiConfig) (keys : List Text)
        → AtMost p (length keys) (submit_keys env client keys)
    unfolding submit_keys unseal
    submit_keys-AtMost client [] = AtMost-pure 0 _
    submit_keys-AtMost client (key ∷ keys) =
        AtMost-bind_of 1 (length keys) _ _ (omega arith)
          (AtMost-bind_of 1 0 _ _ (omega arith) (AtMost-perform _ _) (λ t. AtMost-pure 0 _))
          (λ t. after_answer-AtMost (length keys) _ _ (submit_keys-AtMost client keys))

    proceed-AtMost :
        (n : ℕ) (r : Visit × Bool) (rest : Visit → Prog Visit)
        → AtMost p n (rest r.0)
        → AtMost p n (proceed r rest)
    unfolding proceed
    proceed-AtMost n (v, true) rest h = h
    proceed-AtMost n (v, false) rest h = AtMost-pure n v

    -- The loop makes as many calls of a kind as its visits do.
    pub visit_pods-AtMost :
        (keys : List Text) (n : ℕ)
        → ((pod : Pod) (v : Visit) → AtMost p n (visit_pod env keys pod v))
        → (pods : List Pod) (v : Visit) → AtMost p (length pods * n) (visit_pods env keys pods v)
    unfolding visit_pods
    visit_pods-AtMost keys n h [] v = AtMost-pure _ _
    visit_pods-AtMost keys n h (pod ∷ pods) v =
        AtMost-bind_of n (length pods * n) _ _ (omega arith) (h pod v) λ t.
          let visited = (visit_pod env keys pod v t).0 in
          proceed-AtMost _ visited (visit_pods env keys pods)
            (visit_pods-AtMost keys n h pods visited.0)

  after_status-Few :
      (client : ApiConfig) (keys : List Text) (r : Result SealStatus)
      → Few (length keys) (after_status env client keys r)
  unfolding after_status
  after_status-Few client keys (err e) = AtMost-pure _ _
  after_status-Few client keys (ok s) =
      AtMost-if _ (not s.sealed) _ _ (λ _. AtMost-pure _ _) (λ _. submit_keys-AtMost client keys)

  after_client-Few :
      (keys : List Text) (r : Result ApiConfig) → Few (length keys) (after_client env keys r)
  unfolding after_client get_seal_status
  after_client-Few keys (err e) = AtMost-pure _ _
  after_client-Few keys (ok client) =
      AtMost-bind_of 0 (length keys) _ _ (omega arith)
        (AtMost-of_Emits _ (Emits-bind _ _ (Emits-perform _ _ refl) (λ b. Emits-pure _)))
        (λ t. after_status-Few client keys _)

  check_and_unseal_pod-Few :
      (pod : Pod) (vu : VaultUnsealer) (keys : List Text)
      → Few (length keys) (check_and_unseal_pod env pod vu keys)
  unfolding check_and_unseal_pod
  check_and_unseal_pod-Few pod vu keys =
      AtMost-bind_of 0 (length keys) _ _ (omega arith)
        (AtMost-of_Emits _ (create_vault_client-Emits env pod vu _ (λ id h. refl) (λ c h. refl)))
        (λ t. after_client-Few keys _)

  after_check-Few : (pod : Pod) (v : Visit) (r : Result Bool) → Few 0 (after_check env pod v r)
  unfolding after_check
  after_check-Few pod v (err e) = AtMost-of_Emits _ (
      Emits-bind _ _ (Emits-emit _ refl)
        (λ _. Emits-bind _ _ (Emits-emit _ refl) (λ _. Emits-pure _)))
  after_check-Few pod v (ok true) =
      AtMost-of_Emits _ (Emits-bind _ _ (Emits-emit _ refl) (λ _. Emits-pure _))
  after_check-Few pod v (ok false) = AtMost-of_Emits _ (
      Emits-bind _ _ (Emits-emit _ refl)
        (λ _. Emits-bind _ _ (Emits-emit _ refl) (λ _. Emits-pure _)))

  visit_pod-Few :
      (keys : List Text) (pod : Pod) (v : Visit) → Few (length keys) (visit_pod env keys pod v)
  unfolding visit_pod
  visit_pod-Few keys pod v =
      AtMost-if (length keys) (not (is_pod_ready pod)) _ _ (λ _. AtMost-pure _ _)
        λ _.
          AtMost-bind_of (length keys) 0 _ _ (omega arith) (check_and_unseal_pod-Few pod _ keys)
            (λ t. after_check-Few pod _ _)

  pub visit_pods-Few :
      (keys : List Text) (pods : List Pod) (v : Visit)
      → Few (length pods * length keys) (visit_pods env keys pods v)
  visit_pods-Few keys pods v = visit_pods-AtMost keys (length keys) (visit_pod-Few keys) pods v
