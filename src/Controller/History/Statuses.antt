-- ===== src/Controller/History/Statuses.antt =====
-- The statuses that the controller saves over a whole history.
use vault_unsealer.Prelude.{◌≡◌, ◌⊎◌, [], Memᴰ}
use vault_unsealer.Result.{Result, ok}
use vault_unsealer.Api.{VaultUnsealer, NamespacedName}
use vault_unsealer.Cluster.{Env, Trace, get_vault_unsealer, update_status}
use vault_unsealer.Controller.Reconcile.Status.{HasTable}
use vault_unsealer.Controller.History.Founded.{IsConclusive, IsFounded}

-- The status subresource of an object is empty when it is created, and only the controller writes
-- it: the conditions that are read are none, or those of a status that was saved.
pub record StatusLaws (env : Env) : Type 0 where
  pub kept :
      (t : Trace) (id : NamespacedName) (vu : VaultUnsealer)
      → env.get_vault_unsealer t id ≡ ok vu
      → (vu.status.conditions ≡ [])
        ⊎ ((old : VaultUnsealer) × Memᴰ (update_status old) t
            × (vu.status.conditions ≡ old.status.conditions))

abbrev pub IsSound : Env → Trace → VaultUnsealer → Type 0
IsSound env t vu = HasTable vu × IsConclusive vu × IsFounded env t vu

abbrev AllSound : Env → Trace → Type 0
AllSound env t = (vu : VaultUnsealer) → Memᴰ (update_status vu) t → IsSound env t vu
