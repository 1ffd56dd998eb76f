-- ===== src/Controller/Lifecycle/Laws.antt =====
-- What Reconcile does by the state of the object: absent, without a finalizer, live, or being deleted.
use vault_unsealer.Prelude.{
  ◌≡◌, refl, sym, ◌∙◌, ◌⊎◌, inl, inr, true, false, [], ◌∷◌, ◌++◌, All, All-append, append_assoc,
}
use vault_unsealer.Result.{Result, ok, err}
use vault_unsealer.Api.{VaultUnsealer, NamespacedName}
use vault_unsealer.Cluster.{Env, Call, Trace, ◌>>=◌, get_vault_unsealer, update, delete}
use vault_unsealer.Cluster.Emits.{Emits, Emits-bind, Emits-pure, Emits-perform, Emits-if}
use vault_unsealer.Controller.Lifecycle.Deletions.{cleanup_metrics-Emits}
use vault_unsealer.Controller.Lifecycle.{
  has_finalizer, with_finalizer, without_finalizer, write, live, dying, after_get, reconcile,
}

-- The object is one that a pass is made over.
abbrev pub IsLive : Env → Result VaultUnsealer → Type 0
IsLive env (err e) = ⊥
IsLive env (ok vu) = (vu.deleting ≡ false) × (has_finalizer env vu ≡ true)

-- The calls that no secret, no pod and no Vault sees: reading the object, writing it back as one of
-- two, and deleting metrics.
abbrev pub IsLifecycleCall : Env → Result VaultUnsealer → Call → Type 0
IsLifecycleCall env found (get_vault_unsealer id) = Unit
IsLifecycleCall env (ok vu) (update new) =
    ((vu.deleting ≡ false) × (new ≡ with_finalizer env vu))
    ⊎ ((vu.deleting ≡ true) × (new ≡ without_finalizer env vu))
IsLifecycleCall env (ok vu) (delete s) = vu.deleting ≡ true
IsLifecycleCall _ _ _ = ⊥

module _ (env : Env) (vu : VaultUnsealer) where
  abbrev P : Call → Type 0
  P = IsLifecycleCall env (ok vu)

  write-Emits : (new : VaultUnsealer) → P (update new) → Emits P (write env new)
  unfolding write
  write-Emits new h = Emits-bind _ _ (Emits-perform _ _ h) (λ f. Emits-pure _)

  module _ (gone : vu.deleting ≡ true) where
    dying-Emits : Emits P (dying env vu)
    unfolding dying
    dying-Emits =
        Emits-if (has_finalizer env vu) _ _
          (λ y.
            Emits-bind _ _ (cleanup_metrics-Emits vu P (λ s e. gone))
              (λ _. write-Emits _ (inr (gone, refl))))
          (λ n. Emits-pure _)

after_get-Emits :
    (env : Env) (found : Result VaultUnsealer)
    → ¬ IsLive env found
    → Emits (IsLifecycleCall env found) (after_get env found)
unfolding after_get live
after_get-Emits env (err e) h = Emits-pure _
after_get-Emits env (ok vu) h =
    Emits-if vu.deleting _ _ (λ gone. dying-Emits env vu gone)
      λ here.
        Emits-if (has_finalizer env vu) _ _ (λ y. absurd (h (here, y)))
          (λ n. write-Emits env vu _ (inl (here, refl)))

-- An object that is absent, being deleted or without its finalizer is never acted for: Reconcile
-- reads no secret, lists no pod and calls no Vault. It writes the object back only with the finalizer
-- added while it lives, or removed while it is being deleted, and deletes metrics only then.
pub reconcile_idle :
    (env : Env) (id : NamespacedName) (t : Trace)
    → ¬ IsLive env (env.get_vault_unsealer t id)
    → (new : Trace) × ((reconcile env id t).1 ≡ new ++ t)
      × All (IsLifecycleCall env (env.get_vault_unsealer t id)) new
unfolding reconcile ◌>>=◌
reconcile_idle env id t h =
    let found = env.get_vault_unsealer t id in
    let (new, e, all) = (after_get-Emits env found h).at (get_vault_unsealer id ∷ t) in
    (
      new ++ (get_vault_unsealer id ∷ []),
      e ∙ sym (append_assoc new (get_vault_unsealer id ∷ []) t),
      All-append (IsLifecycleCall env found) new (get_vault_unsealer id ∷ []) all
          (reading found, tt),
    )
  where
    reading : (found : Result VaultUnsealer) → IsLifecycleCall env found (get_vault_unsealer id)
    reading (err e) = tt
    reading (ok vu) = tt
