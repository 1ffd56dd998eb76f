-- ===== src/Controller/Lifecycle/Progress.antt =====
-- What a run of Reconcile is for an object that has its finalizer: a pass, or the cleanup with the
-- update that lets the object go.
use vault_unsealer.Prelude.{◌≡◌, true, false, ◌∷◌}
use vault_unsealer.Result.{ok}
use vault_unsealer.Api.{VaultUnsealer, NamespacedName}
use vault_unsealer.Cluster.{Env, Trace, pure, ◌>>=◌, get_vault_unsealer, update}
use vault_unsealer.Controller.Reconcile.{reconcile_vault_unsealer}
use vault_unsealer.Controller.Lifecycle.{
  has_finalizer, without_finalizer, write, live, dying, after_get, reconcile, cleanup_metrics,
}

module _ (env : Env) (id : NamespacedName) (t : Trace) where
  pub runs_pass :
      (vu : VaultUnsealer)
      → env.get_vault_unsealer t id ≡ ok vu
      → vu.deleting ≡ false
      → has_finalizer env vu ≡ true
      → reconcile env id t ≡ reconcile_vault_unsealer env vu (get_vault_unsealer id ∷ t)
  unfolding reconcile after_get live ◌>>=◌
  runs_pass vu found here owned = rw (found, after_get, here, owned)

  pub removes :
      (vu : VaultUnsealer)
      → env.get_vault_unsealer t id ≡ ok vu
      → vu.deleting ≡ true
      → has_finalizer env vu ≡ true
      → (reconcile env id t).1
        ≡ update (without_finalizer env vu) ∷ (cleanup_metrics vu (get_vault_unsealer id ∷ t)).1
  unfolding reconcile after_get dying write ◌>>=◌ pure
  removes vu found gone owned = rw (found, after_get, gone, owned)
