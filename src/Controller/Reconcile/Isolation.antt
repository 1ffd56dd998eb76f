-- ===== src/Controller/Reconcile/Isolation.antt =====
-- The calls of a pass.
use vault_unsealer.Prelude.{ℕ, ◌≡◌, refl, ap, ◌∙◌, inl, List, [], ◌∷◌, Option, none, some, arith}
use vault_unsealer.Text.{Text}
use vault_unsealer.Result.{Error, Result, ok, err}
use vault_unsealer.Api.{VaultUnsealer}
use vault_unsealer.Cluster.{Env, Pod}
use vault_unsealer.Cluster.Emits.{
  Emits, Emits-bind, Emits-bind_of, Emits-pure, Emits-emit, Emits-perform,
}
use vault_unsealer.Cluster.Owner.{key_of}
use vault_unsealer.Secrets.Loader.Calls.{load_unseal_keys-Emits}
use vault_unsealer.Controller.Conditions.{set_condition, clear_condition}
use vault_unsealer.Controller.Isolation.{IsOwn}
use vault_unsealer.Controller.Pods.{Visit}
use vault_unsealer.Controller.Pods.Isolation.{IsLike, visit_pods-IsOwn}
use vault_unsealer.Controller.Pods.Loop.{visit_pods-IsVisited}
use vault_unsealer.Controller.Reconcile.{
  begun, judge, completed, list_selected, get_vault_pods, save, after_save, finish_pass, after_keys,
  after_pods, pass, reconcile_vault_unsealer,
}

key_of-completed : (v : Visit) → key_of (completed v) ≡ key_of v.vu
unfolding judge set_condition clear_condition
key_of-completed v = ground arith

module _ (env : Env) (vu : VaultUnsealer) where
  save-IsOwn : (new : VaultUnsealer) → key_of new ≡ key_of vu → Emits (IsOwn vu) (save env new)
  unfolding save
  save-IsOwn new key = Emits-perform _ _ key

  after_save-IsOwn :
      (new : VaultUnsealer) (failure : Option Error)
      → key_of new ≡ key_of vu
      → Emits (IsOwn vu) (after_save env new failure)
  unfolding after_save
  after_save-IsOwn new none key = Emits-pure _
  after_save-IsOwn new (some e) key = Emits-bind _ _ (Emits-emit _ key) (λ _. Emits-pure _)

  finish_pass-IsOwn : (v : Visit) → key_of v.vu ≡ key_of vu → Emits (IsOwn vu) (finish_pass env v)
  unfolding finish_pass
  finish_pass-IsOwn v key = Emits-bind _ _ (Emits-emit _ key) λ _.
      Emits-bind _ _ (Emits-emit _ key) λ _.
        Emits-bind _ _ (save-IsOwn (completed v) (key_of-completed v ∙ key))
          (λ failure. after_save-IsOwn v.vu failure key)

  module _ (start : VaultUnsealer) (like : IsLike vu start) where
    after_keys-IsOwn :
        (pods : List Pod) (keys : Result (List Text))
        → Emits (IsOwn vu) (after_keys env pods start keys)
    unfolding after_keys set_condition
    after_keys-IsOwn pods (err e) =
        Emits-bind _ _ (Emits-emit _ like.0)
          λ _. Emits-bind _ _ (save-IsOwn _ like.0) (λ f. Emits-pure _)
    after_keys-IsOwn pods (ok keys) =
        let begin = let it : Visit = record { vu = start; unsealed_count = 0 } in it in
        Emits-bind _ _ (Emits-emit _ like.0) λ _.
          Emits-bind_of _ _ (visit_pods-IsOwn env vu keys pods begin like) λ t.
            finish_pass-IsOwn _ (ap key_of (visit_pods-IsVisited env keys pods begin t).vu ∙ like.0)

  module _ (time : ℕ) where
    after_pods-IsOwn :
        (listed : Result (List Pod)) → Emits (IsOwn vu) (after_pods env (begun time vu) listed)
    unfolding after_pods set_condition
    after_pods-IsOwn (err e) =
        Emits-bind _ _ (Emits-emit _ refl)
          λ _. Emits-bind _ _ (save-IsOwn _ refl) (λ f. Emits-pure _)
    after_pods-IsOwn (ok []) = Emits-bind _ _ (save-IsOwn _ refl) (λ f. Emits-pure _)
    after_pods-IsOwn (ok (pod ∷ pods)) =
        Emits-bind _ _
          (load_unseal_keys-Emits env vu.namespace (IsOwn vu) vu.spec.unseal_keys_secret_refs
            vu.spec.key_threshold (λ ref m. (ref, inl m, refl)))
          (λ keys. after_keys-IsOwn (begun time vu) (refl, refl) (pod ∷ pods) keys)

    list_selected-IsOwn :
        (failure : Option Error) → Emits (IsOwn vu) (list_selected env (begun time vu) failure)
    unfolding list_selected
    list_selected-IsOwn none = Emits-perform _ _ (refl, refl)
    list_selected-IsOwn (some e) = Emits-pure _

  -- A pass reads only secrets that its object refers to, lists only pods that its object selects,
  -- calls only addresses made of its URL, and writes only its status and its series.
  pub reconcile_vault_unsealer-IsOwn : Emits (IsOwn vu) (reconcile_vault_unsealer env vu)
  unfolding reconcile_vault_unsealer pass get_vault_pods
  reconcile_vault_unsealer-IsOwn =
      let body : Emits (IsOwn vu) (pass env vu) = Emits-bind _ _ (Emits-perform _ _ tt) λ time.
        Emits-bind _ _ (list_selected-IsOwn time (env.parse_selector vu.spec.vault_label_selector))
          (λ listed. after_pods-IsOwn time listed) in
      Emits-bind _ _ (Emits-perform _ _ tt) λ start. Emits-bind _ _ body λ outcome.
        Emits-bind _ _ (Emits-perform _ _ tt) λ stop.
          Emits-bind _ _ (Emits-emit _ refl)
            λ _. Emits-bind _ _ (Emits-emit _ refl) (λ _. Emits-pure _)
