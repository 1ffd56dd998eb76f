-- ===== src/Controller/History.antt =====
-- The histories of the whole controller: runs of Reconcile, one after the other, over any objects in
-- any order. SetupWithManager of internal/controller/vaultunsealer_controller.go leaves the number of
-- workers at its default of one, so that no two runs overlap.
pub mod Founded
pub mod Release
pub mod Saves
pub mod Series
pub mod Statuses
use vault_unsealer.Prelude.{◌≡◌, refl, ◌⊎◌, inl, inr, true, false, [], Bool-cases, Memᴰ, ◌∷◌, some}
use vault_unsealer.Result.{Result, ok, err}
use vault_unsealer.Api.{VaultUnsealer, NamespacedName}
use vault_unsealer.Cluster.{Env, Trace, get_vault_unsealer, update_status}
use vault_unsealer.Controller.Reconcile.{reconcile_vault_unsealer}
use vault_unsealer.Controller.Reconcile.Report.{last_saved}
use vault_unsealer.Controller.Lifecycle.{has_finalizer, reconcile}
use vault_unsealer.Controller.Lifecycle.Laws.{IsLive}
use vault_unsealer.Controller.Lifecycle.Progress.{runs_pass}

-- The histories that the controller can come to.
pub data Reachable (env : Env) : Trace → Type 0 where
  booted : Reachable env []
  reconciled :
      {t : Trace} (id : NamespacedName) → Reachable env t → Reachable env (reconcile env id t).1

-- A run is a pass over a live object, or it is idle.
found_cases :
    (env : Env) (found : Result VaultUnsealer)
    → ((vu : VaultUnsealer) × (found ≡ ok vu) × IsLive env (ok vu)) ⊎ (¬ IsLive env found)
found_cases env (err e) = inr (λ h. h)
found_cases env (ok vu) = elim (Bool-cases vu.deleting) [
  | inl gone ↦ inr (λ h. cc)
  | inr here ↦ elim (Bool-cases (has_finalizer env vu)) [
    | inl owned ↦ inl (vu, refl, (here, owned))
    | inr bare ↦ inr (λ h. cc)
  ]
]

pub reconcile_cases :
    (env : Env) (id : NamespacedName) (t : Trace)
    → ((vu : VaultUnsealer) × (env.get_vault_unsealer t id ≡ ok vu)
        × (reconcile env id t ≡ reconcile_vault_unsealer env vu (get_vault_unsealer id ∷ t)))
      ⊎ (¬ IsLive env (env.get_vault_unsealer t id))
reconcile_cases env id t = elim (found_cases env (env.get_vault_unsealer t id)) [
  | inl (vu, found, (here, owned)) ↦ inl (vu, found, runs_pass env id t vu found here owned)
  | inr idle ↦ inr idle
]

pub Memᴰ-last_saved :
    (t : Trace) (vu : VaultUnsealer) → last_saved t ≡ some vu → Memᴰ (update_status vu) t
unfolding last_saved
Memᴰ-last_saved [] vu h = absurd (cc)
Memᴰ-last_saved (update_status new ∷ t) vu h = Memᴰ.head (cc)
Memᴰ-last_saved (c ∷ t) vu h = Memᴰ.tail (Memᴰ-last_saved t vu h)
