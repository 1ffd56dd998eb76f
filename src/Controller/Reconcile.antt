-- ===== src/Controller/Reconcile.antt =====
-- reconcileVaultUnsealer and getVaultPods of internal/controller/vaultunsealer_controller.go: one pass
-- over the pods of an object that has its finalizer. The reconciliation ID and the log lines have no
-- effect on the result and are left out.
pub mod Accepted
pub mod Admitted
pub mod Attested
pub mod Bounds
pub mod Calls
pub mod Found
pub mod Full
pub mod Isolation
pub mod Labels
pub mod Metrics
pub mod Opened
pub mod Report
pub mod Settled
pub mod Status
pub mod Steady
pub mod Total
pub mod Verdict
use vault_unsealer.Prelude.{
  ℕ, ◌-◌, ℤ, pos, List, [], ◌∷◌, ◌++◌, Option, none, some, length, ltb, if◌then◌else◌,
}
use vault_unsealer.Text.{Text, codes}
use vault_unsealer.Text.Decimal.{decimal}
use vault_unsealer.Result.{Error, Result, ok, err, wrap}
use vault_unsealer.Api.{VaultUnsealer}
use vault_unsealer.Cluster.{
  Env, Prog, pure, perform, emit, ◌>>=◌, ◌>>◌, Pod, list_pods, update_status, now, inc, set,
  observe, reconciliation_total, reconciliation_errors, reconciliation_duration, unseal_keys_loaded,
  pods_checked, pods_unsealed,
}
use vault_unsealer.Secrets.Loader.{load_unseal_keys}
use vault_unsealer.Controller.Conditions.{
  set_condition, clear_condition, ready, keys_missing, pod_unavailable, status_true, status_false,
  reason_reconcile_success, reason_keys_missing, reason_pod_not_ready, reason_unseal_failed,
}
use vault_unsealer.Controller.Pods.{Visit, visit_pods}

-- ctrl.Result and the error beside it; `RequeueAfter` in nanoseconds, zero when it is not set
pub record Outcome : Type 0 where
  pub requeue_after : ℤ
  pub error : Option Error

-- `defaultInterval`
abbrev pub interval_of : Option ℤ → ℤ
interval_of none = pos 60000000000
interval_of (some d) = d

-- the reset of the status at the start
abbrev pub begun : ℕ → VaultUnsealer → VaultUnsealer
begun time vu = record vu {
  status = record (vu.status) {
    last_reconcile_time = some time;
    pods_checked = [];
    unsealed_pods = [];
  };
}

-- the Ready condition by `unsealedCount`
unfoldable pub judge : Visit → VaultUnsealer
judge v =
    if ltb 0 v.unsealed_count
    then set_condition ready status_true reason_reconcile_success
        (codes "Successfully unsealed " ++ (decimal v.unsealed_count ++ codes " pods")) v.vu
    else set_condition ready status_false reason_unseal_failed
        (codes "No pods were successfully unsealed") v.vu

abbrev pub pods_failure : Error → VaultUnsealer → VaultUnsealer
pods_failure e = set_condition pod_unavailable status_true reason_pod_not_ready e.message

abbrev pub no_pods : VaultUnsealer → VaultUnsealer
no_pods = set_condition pod_unavailable status_true reason_pod_not_ready (codes "No pods found")

abbrev pub keys_failure : Error → VaultUnsealer → VaultUnsealer
keys_failure e = set_condition keys_missing status_true reason_keys_missing e.message

-- The object as the last update of a full pass writes it.
abbrev pub completed : Visit → VaultUnsealer
completed v = clear_condition pod_unavailable (clear_condition keys_missing (judge v))

module _ (env : Env) where
  -- with the error of labels.Parse, if there is one
  list_selected : VaultUnsealer → Option Error → Prog (Result (List Pod))
  list_selected vu (some e) = pure (err (wrap (codes "invalid label selector: ") e))
  list_selected vu none =
      perform (list_pods vu.namespace vu.spec.vault_label_selector)
        (λ t. env.list_pods t vu.namespace vu.spec.vault_label_selector)

  unfoldable pub get_vault_pods : VaultUnsealer → Prog (Result (List Pod))
  unfolding list_selected
  get_vault_pods vu = list_selected vu (env.parse_selector vu.spec.vault_label_selector)

  unfoldable pub save : VaultUnsealer → Prog (Option Error)
  save vu = perform (update_status vu) (λ t. env.update_status t vu)

  abbrev requeue : VaultUnsealer → Option Error → Outcome
  requeue vu error = record { requeue_after = interval_of vu.spec.interval; error = error }

  after_save : VaultUnsealer → Option Error → Prog Outcome
  after_save vu none = pure (requeue vu none)
  after_save vu (some e) = do
    emit (inc (reconciliation_errors vu.name vu.namespace (codes "status_update")))
    pure (requeue vu (some e))

  finish_pass : Visit → Prog Outcome
  finish_pass v = do
    emit (set (pods_checked v.vu.name v.vu.namespace) (length v.vu.status.pods_checked))
    emit (set (pods_unsealed v.vu.name v.vu.namespace) v.unsealed_count)
    failure ← save (completed v)
    after_save v.vu failure

  after_keys : List Pod → VaultUnsealer → Result (List Text) → Prog Outcome
  after_keys pods vu (err e) = do
    emit (inc (reconciliation_errors vu.name vu.namespace (codes "keys_loading")))
    save (keys_failure e vu)
    pure (requeue vu (some e))
  after_keys pods vu (ok keys) = do
    emit (set (unseal_keys_loaded vu.name vu.namespace) (length keys))
    v ← visit_pods env keys pods (record { vu = vu; unsealed_count = 0 })
    finish_pass v

  pub after_pods : VaultUnsealer → Result (List Pod) → Prog Outcome
  after_pods vu (err e) = do
    emit (inc (reconciliation_errors vu.name vu.namespace (codes "pod_discovery")))
    save (pods_failure e vu)
    pure (requeue vu (some e))
  after_pods vu (ok []) = do save (no_pods vu); pure (requeue vu none)
  after_pods vu (ok (pod ∷ pods)) = do
    keys ← load_unseal_keys env vu.namespace vu.spec.unseal_keys_secret_refs vu.spec.key_threshold
    after_keys (pod ∷ pods) vu keys

  -- the body between the start and the deferred function
  unfoldable pub pass : VaultUnsealer → Prog Outcome
  unfolding after_pods after_keys finish_pass after_save save
  pass vu = do
    time ← perform now env.now
    pods ← get_vault_pods (begun time vu)
    after_pods (begun time vu) pods

  -- time.Since reads a monotonic clock: where the answers do not grow, the difference is 0
  unfoldable pub reconcile_vault_unsealer : VaultUnsealer → Prog Outcome
  unfolding pass
  reconcile_vault_unsealer vu = do
    start ← perform now env.now
    outcome ← pass vu
    stop ← perform now env.now
    emit (observe (reconciliation_duration vu.name vu.namespace) (stop - start))
    emit (inc (reconciliation_total vu.name vu.namespace))
    pure outcome
