-- ===== src/Controller/Lifecycle/Isolation.antt =====
-- The calls of a run of Reconcile: none of them is for another object.
use vault_unsealer.Prelude.{◌≡◌, refl, sym, subst, ◌∷◌}
use vault_unsealer.Result.{ok}
use vault_unsealer.Api.{VaultUnsealer, NamespacedName}
use vault_unsealer.Cluster.{Env, Trace, ◌>>=◌, get_vault_unsealer}
use vault_unsealer.Cluster.Emits.{Emits, Emits-bind, Emits-pure, Emits-perform, Emits-if}
use vault_unsealer.Cluster.Grew.{Grew, Grew-refl, Grew-call, Grew-trans, Grew-of_Emits}
use vault_unsealer.Cluster.Owner.{key_of}
use vault_unsealer.Controller.Isolation.{IsOwn}
use vault_unsealer.Controller.Reconcile.Isolation.{reconcile_vault_unsealer-IsOwn}
use vault_unsealer.Controller.Lifecycle.{
  has_finalizer, with_finalizer, without_finalizer, write, live, dying, after_get, reconcile,
}
use vault_unsealer.Controller.Lifecycle.Deletions.{cleanup_metrics-Emits}

module _ (env : Env) (vu : VaultUnsealer) where
  write-IsOwn : (new : VaultUnsealer) → key_of new ≡ key_of vu → Emits (IsOwn vu) (write env new)
  unfolding write
  write-IsOwn new key = Emits-bind _ _ (Emits-perform _ _ key) (λ f. Emits-pure _)

  dying-IsOwn : Emits (IsOwn vu) (dying env vu)
  unfolding dying
  dying-IsOwn =
      Emits-if (has_finalizer env vu) _ _
        (λ y.
          Emits-bind _ _ (cleanup_metrics-Emits vu (IsOwn vu) (λ s e. e))
            (λ _. write-IsOwn (without_finalizer env vu) refl))
        (λ n. Emits-pure _)

  live-IsOwn : Emits (IsOwn vu) (live env vu)
  unfolding live
  live-IsOwn =
      Emits-if (has_finalizer env vu) _ _ (λ y. reconcile_vault_unsealer-IsOwn env vu)
        (λ n. write-IsOwn (with_finalizer env vu) refl)

  after_get-IsOwn : Emits (IsOwn vu) (after_get env (ok vu))
  unfolding after_get
  after_get-IsOwn = Emits-if vu.deleting _ _ (λ y. dying-IsOwn) (λ n. live-IsOwn)

-- If the API server answers a key with the object of that key, then every call of a run of Reconcile
-- for a key is for the object that was found: it reads or writes that object, lists pods in its
-- namespace with its selector, reads a secret that its specification refers to, calls an address made
-- of an IP and its URL, or writes or deletes a series of it.
pub reconcile-IsOwn :
    (env : Env) (id : NamespacedName) (t : Trace) (vu : VaultUnsealer)
    → env.get_vault_unsealer t id ≡ ok vu
    → key_of vu ≡ id
    → Grew (IsOwn vu) t (reconcile env id t).1
unfolding reconcile ◌>>=◌
reconcile-IsOwn env id t vu found keyed =
    Grew-trans (Grew-call (get_vault_unsealer id) (sym keyed) Grew-refl) (
      subst
        (λ r.
          Grew (IsOwn vu) (get_vault_unsealer id ∷ t)
            (after_get env r (get_vault_unsealer id ∷ t)).1)
        (sym found) (Grew-of_Emits _ (after_get-IsOwn env vu)))
