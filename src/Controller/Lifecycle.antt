-- ===== src/Controller/Lifecycle.antt =====
-- Reconcile and cleanupMetrics of internal/controller/vaultunsealer_controller.go: the finalizer, the
-- deletion of an object, and the dispatch to a pass. The loader that Reconcile makes when there is
-- none holds the same client as every other, so it is no state here.
pub mod Cleanup
pub mod Deletions
pub mod Isolation
pub mod Laws
pub mod Progress
use vault_unsealer.Prelude.{
  ℤ, pos, Bool, true, false, List, [], ◌∷◌, Option, none, some, if◌then◌else◌,
}
use vault_unsealer.Text.{Text, codes}
use vault_unsealer.Result.{Error, Result, ok, err}
use vault_unsealer.Api.{VaultUnsealer, NamespacedName}
use vault_unsealer.Cluster.{
  Env, Prog, pure, perform, emit, ◌>>=◌, ◌>>◌, get_vault_unsealer, update, delete,
  reconciliation_total, reconciliation_errors, unseal_attempts, pods_unsealed, pods_checked,
  unseal_keys_loaded, reconciliation_duration, vault_connection_status,
}
use vault_unsealer.Controller.Reconcile.{Outcome, reconcile_vault_unsealer}

abbrev pub vault_unsealer_finalizer : Text
vault_unsealer_finalizer = codes "autounseal.vault.io/finalizer"

-- the loop over the pods that were checked
unfoldable pub delete_pod_metrics : Text → Text → List Text → Prog (Unit {0})
delete_pod_metrics name namespace [] = pure tt
delete_pod_metrics name namespace (pod ∷ pods) = do
  emit (delete (unseal_attempts name namespace pod (codes "success")))
  emit (delete (unseal_attempts name namespace pod (codes "failed")))
  emit (delete (vault_connection_status name namespace pod))
  delete_pod_metrics name namespace pods

unfoldable pub cleanup_metrics : VaultUnsealer → Prog (Unit {0})
unfolding delete_pod_metrics
cleanup_metrics vu = do
  emit (delete (reconciliation_total vu.name vu.namespace))
  emit (delete (reconciliation_errors vu.name vu.namespace (codes "pod_discovery")))
  emit (delete (reconciliation_errors vu.name vu.namespace (codes "keys_loading")))
  emit (delete (reconciliation_errors vu.name vu.namespace (codes "status_update")))
  emit (delete (pods_unsealed vu.name vu.namespace))
  emit (delete (pods_checked vu.name vu.namespace))
  emit (delete (unseal_keys_loaded vu.name vu.namespace))
  emit (delete (reconciliation_duration vu.name vu.namespace))
  delete_pod_metrics vu.name vu.namespace vu.status.pods_checked

-- ctrl.Result{} with an error, or with none
abbrev pub at_once : Option Error → Outcome
at_once error = record { requeue_after = pos 0; error = error }

module _ (env : Env) where
  abbrev pub has_finalizer : VaultUnsealer → Bool
  has_finalizer vu = env.contains_finalizer vu.finalizers vault_unsealer_finalizer

  abbrev pub with_finalizer : VaultUnsealer → VaultUnsealer
  with_finalizer vu = record vu {
    finalizers = env.add_finalizer vu.finalizers vault_unsealer_finalizer;
  }

  abbrev pub without_finalizer : VaultUnsealer → VaultUnsealer
  without_finalizer vu = record vu {
    finalizers = env.remove_finalizer vu.finalizers vault_unsealer_finalizer;
  }

  write : VaultUnsealer → Prog Outcome
  write vu = do failure ← perform (update vu) (λ t. env.update t vu); pure (at_once failure)

  live : VaultUnsealer → Prog Outcome
  live vu = if has_finalizer vu then reconcile_vault_unsealer env vu else write (with_finalizer vu)

  dying : VaultUnsealer → Prog Outcome
  dying vu =
      if has_finalizer vu
      then (do cleanup_metrics vu; write (without_finalizer vu))
      else pure (at_once none)

  after_get : Result VaultUnsealer → Prog Outcome
  after_get (err e) = pure (at_once (if e.not_found then none else some e))
  after_get (ok vu) = if vu.deleting then dying vu else live vu

  unfoldable pub reconcile : NamespacedName → Prog Outcome
  unfolding after_get dying live write cleanup_metrics
  reconcile id = do
    found ← perform (get_vault_unsealer id) (λ t. env.get_vault_unsealer t id)
    after_get found
