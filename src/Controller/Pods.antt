-- ===== src/Controller/Pods.antt =====
-- isPodReady and checkAndUnsealPod of internal/controller/vaultunsealer_controller.go, and the loop
-- over the pods of reconcileVaultUnsealer.
pub mod Behaviour
pub mod Bounds
pub mod Enough
pub mod Evidence
pub mod Unsealing
pub mod Held
pub mod Isolation
pub mod Loop
pub mod Opening
pub mod Partial
pub mod Quorum
pub mod Submission
pub mod Total
use vault_unsealer.Prelude.{
  ℕ, ◌+◌, Bool, true, false, not, ◌&&◌, List, [], ◌∷◌, ◌++◌, if◌then◌else◌,
}
use vault_unsealer.Text.{Text, codes, is_empty, text_eq}
use vault_unsealer.Result.{Error, Result, ok, err, wrap}
use vault_unsealer.Api.{VaultUnsealer}
use vault_unsealer.Cluster.{
  Env, Prog, pure, perform, emit, ◌>>=◌, ◌>>◌, Pod, PodCondition, ApiConfig, SealStatus,
  UnsealResponse, inc, set, unseal_attempts, vault_connection_status,
}
use vault_unsealer.Vault.{get_seal_status, unseal}
use vault_unsealer.Controller.Connection.{create_vault_client}

-- the loop of isPodReady: the first condition of type Ready decides
ready_condition : List PodCondition → Bool
ready_condition [] = false
ready_condition (c ∷ cs) =
    if text_eq c.type (codes "Ready") then text_eq c.status (codes "True") else ready_condition cs

unfoldable pub is_pod_ready : Pod → Bool
unfolding ready_condition text_eq
is_pod_ready pod =
    if not (text_eq pod.phase (codes "Running"))
    then false
    else if is_empty pod.pod_ip
    then false
    else ready_condition pod.conditions

-- the object with the status lists so far, and `unsealedCount`
pub record Visit : Type 0 where
  pub vu : VaultUnsealer
  pub unsealed_count : ℕ

abbrev pub checked : Pod → Visit → Visit
checked pod v = record v {
  vu = record (v.vu) {
    status = record (v.vu.status) { pods_checked = v.vu.status.pods_checked ++ pod.name ∷ [] };
  };
}

abbrev pub unsealed : Pod → Visit → Visit
unsealed pod v = record {
  vu = record (v.vu) {
    status = record (v.vu.status) { unsealed_pods = v.vu.status.unsealed_pods ++ pod.name ∷ [] };
  };
  unsealed_count = v.unsealed_count + 1;
}

-- one round of the loop over the keys, with the rounds that follow
after_answer : Result UnsealResponse → Prog (Result Bool) → Prog (Result Bool)
after_answer (err e) rest = pure (err e)
after_answer (ok response) rest = if not response.sealed then pure (ok false) else rest

-- `break`, or the rounds that follow
proceed : Visit × Bool → (Visit → Prog Visit) → Prog Visit
proceed (v, true) rest = rest v
proceed (v, false) rest = pure v

module _ (env : Env) where
  -- The loop over the keys. The result is `sealed`; beside an error the source returns true.
  unfoldable pub submit_keys : ApiConfig → List Text → Prog (Result Bool)
  unfolding after_answer
  submit_keys client [] = pure (ok true)
  submit_keys client (key ∷ keys) = do
    answer ← unseal env client key
    after_answer answer (submit_keys client keys)

  after_status : ApiConfig → List Text → Result SealStatus → Prog (Result Bool)
  after_status client keys (err e) = pure (err e)
  after_status client keys (ok status) =
      if not status.sealed then pure (ok false) else submit_keys client keys

  after_client : List Text → Result ApiConfig → Prog (Result Bool)
  after_client keys (err e) = pure (err (wrap (codes "failed to create vault client: ") e))
  after_client keys (ok client) = do
    status ← get_seal_status env client
    after_status client keys status

  unfoldable pub check_and_unseal_pod : Pod → VaultUnsealer → List Text → Prog (Result Bool)
  unfolding after_client after_status
  check_and_unseal_pod pod vu keys = do
    client ← create_vault_client env pod vu
    after_client keys client

  -- What follows checkAndUnsealPod; the Boolean says whether the loop goes on.
  after_check : Pod → Visit → Result Bool → Prog (Visit × Bool)
  after_check pod v (err e) = do
    emit (inc (unseal_attempts v.vu.name v.vu.namespace pod.name (codes "failed")))
    emit (set (vault_connection_status v.vu.name v.vu.namespace pod.name) 0)
    pure (v, true)
  after_check pod v (ok true) = do
    emit (set (vault_connection_status v.vu.name v.vu.namespace pod.name) 1)
    pure (v, true)
  after_check pod v (ok false) = do
    emit (inc (unseal_attempts v.vu.name v.vu.namespace pod.name (codes "success")))
    emit (set (vault_connection_status v.vu.name v.vu.namespace pod.name) 1)
    pure (unsealed pod v, v.vu.spec.mode.ha)

  unfoldable pub visit_pod : List Text → Pod → Visit → Prog (Visit × Bool)
  unfolding after_check
  visit_pod keys pod v = if not (is_pod_ready pod) then pure (checked pod v, true) else do
    sealed ← check_and_unseal_pod pod (checked pod v).vu keys
    after_check pod (checked pod v) sealed

  unfoldable pub visit_pods : List Text → List Pod → Visit → Prog Visit
  unfolding proceed visit_pod
  visit_pods keys [] v = pure v
  visit_pods keys (pod ∷ pods) v = do
    visited ← visit_pod keys pod v
    proceed visited (visit_pods keys pods)
