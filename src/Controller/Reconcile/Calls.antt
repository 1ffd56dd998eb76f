-- ===== src/Controller/Reconcile/Calls.antt =====
-- Which calls one pass makes, and that it writes the status exactly once.
use vault_unsealer.Prelude.{
  ℕ, suc, ◌+◌, ◌≡◌, refl, ◌∙◌, List, [], ◌∷◌, ◌++◌, none, some, Option, All, arith, ℤ,
}
use vault_unsealer.Text.{Text}
use vault_unsealer.Result.{Error, Result, ok, err}
use vault_unsealer.Api.{SecretRef, VaultConnectionSpec, VaultUnsealer}
use vault_unsealer.Cluster.{Env, Call, Prog, Trace, perform, ◌>>=◌, Pod, update_status, now}
use vault_unsealer.Cluster.Emits.{
  Emits, Emits-mono, Emits-bind, Emits-pure, Emits-emit, Emits-perform,
}
use vault_unsealer.Secrets.Loader.{load_unseal_keys}
use vault_unsealer.Secrets.Loader.Calls.{load_unseal_keys-Emits}
use vault_unsealer.Controller.Pods.{Visit, visit_pods}
use vault_unsealer.Controller.Pods.Loop.Calls.{IsLoopCall, visit_pods-Emits}
use vault_unsealer.Controller.Reconcile.{
  begun, list_selected, get_vault_pods, save, after_save, finish_pass, after_keys, after_pods, pass,
  reconcile_vault_unsealer, completed,
}

-- The number of writes of the status in a history.
unfoldable pub count_saves : Trace → ℕ
count_saves [] = 0
count_saves (update_status vu ∷ t) = suc (count_saves t)
count_saves (c ∷ t) = count_saves t

abbrev IsNoSave : Call → Type 0
IsNoSave (update_status vu) = ⊥
IsNoSave c = Unit

count_saves-append : (new t : Trace) → All IsNoSave new → count_saves (new ++ t) ≡ count_saves t
unfolding count_saves
count_saves-append [] t h = refl
count_saves-append (update_status vu ∷ new) t h = absurd h.0
count_saves-append (c ∷ new) t h = count_saves-append new t h.1

-- The program writes the status `n` times, whatever it is answered.
record Saves {ℓ} {A : Type ℓ} (n : ℕ) (m : Prog A) : Type ℓ where
  at : (t : Trace) → count_saves (m t).1 ≡ n + count_saves t

Saves-of_Emits {ℓ} : {A : Type ℓ} (m : Prog A) → Emits IsNoSave m → Saves 0 m
Saves-of_Emits m h = record {
  at = λ t. let (new, e, all) = h.at t in rw e (count_saves-append new t all ∙ omega arith);
}

module _ {ℓ κ} {A : Type ℓ} {B : Type κ} where
  Saves-bind :
      (j k : ℕ) (m : Prog A) (f : A → Prog B)
      → Saves j m
      → ((t : Trace) → Saves k (f (m t).0))
      → Saves (j + k) (m >>= f)
  unfolding ◌>>=◌
  Saves-bind j k m f hm hf = record {
    at = λ t. let first = hm.at t in let second = (hf t).at (m t).1 in omega arith;
  }

quiet {ℓ} : {A : Type ℓ} (c : Call) (answer : Trace → A) → IsNoSave c → Saves 0 (perform c answer)
quiet c answer h = Saves-of_Emits _ (Emits-perform c answer h)

loop_is_quiet :
    (vault : VaultConnectionSpec) (keys : List Text) (pods : List Pod) (c : Call)
    → IsLoopCall vault keys pods c
    → IsNoSave c
loop_is_quiet vault keys pods (update_status vu) h = h
loop_is_quiet vault keys pods c h = tt

module _ (env : Env) where
  Saves-load :
      (namespace : Text) (refs : List SecretRef) (threshold : ℤ)
      → Saves 0 (load_unseal_keys env namespace refs threshold)
  Saves-load namespace refs threshold =
      Saves-of_Emits _ (load_unseal_keys-Emits env namespace IsNoSave refs threshold (λ r m. tt))

  Saves-visit_pods :
      (keys : List Text) (pods : List Pod) (v : Visit) → Saves 0 (visit_pods env keys pods v)
  Saves-visit_pods keys pods v =
      Saves-of_Emits _
        (Emits-mono (loop_is_quiet v.vu.spec.vault keys pods) (visit_pods-Emits env keys pods v))

  Saves-list_selected : (vu : VaultUnsealer) (e : Option Error) → Saves 0 (list_selected env vu e)
  unfolding list_selected
  Saves-list_selected vu none = quiet _ _ tt
  Saves-list_selected vu (some e) = Saves-of_Emits _ (Emits-pure _)

  Saves-save : (vu : VaultUnsealer) → Saves 1 (save env vu)
  unfolding save perform count_saves
  Saves-save vu = record { at = λ t. omega arith }

  Saves-after_save :
      (vu : VaultUnsealer) (failure : Option Error) → Saves 0 (after_save env vu failure)
  unfolding after_save
  Saves-after_save vu none = Saves-of_Emits _ (Emits-pure _)
  Saves-after_save vu (some e) =
      Saves-of_Emits _ (Emits-bind _ _ (Emits-emit _ tt) (λ _. Emits-pure _))

  Saves-finish_pass : (v : Visit) → Saves 1 (finish_pass env v)
  unfolding finish_pass
  Saves-finish_pass v = Saves-bind 0 1 _ _ (Saves-of_Emits _ (Emits-emit _ tt)) λ _.
      Saves-bind 0 1 _ _ (Saves-of_Emits _ (Emits-emit _ tt))
        λ _. Saves-bind 1 0 _ _ (Saves-save (completed v)) (λ t. Saves-after_save v.vu _)

  Saves-after_keys :
      (pods : List Pod) (vu : VaultUnsealer) (keys : Result (List Text))
      → Saves 1 (after_keys env pods vu keys)
  unfolding after_keys
  Saves-after_keys pods vu (err e) =
      Saves-bind 0 1 _ _ (Saves-of_Emits _ (Emits-emit _ tt))
        λ _. Saves-bind 1 0 _ _ (Saves-save _) (λ t. Saves-of_Emits _ (Emits-pure _))
  Saves-after_keys pods vu (ok keys) =
      Saves-bind 0 1 _ _ (Saves-of_Emits _ (Emits-emit _ tt))
        λ _. Saves-bind 0 1 _ _ (Saves-visit_pods keys pods _) (λ t. Saves-finish_pass _)

  Saves-after_pods :
      (vu : VaultUnsealer) (pods : Result (List Pod)) → Saves 1 (after_pods env vu pods)
  unfolding after_pods
  Saves-after_pods vu (err e) =
      Saves-bind 0 1 _ _ (Saves-of_Emits _ (Emits-emit _ tt))
        λ _. Saves-bind 1 0 _ _ (Saves-save _) (λ t. Saves-of_Emits _ (Emits-pure _))
  Saves-after_pods vu (ok []) =
      Saves-bind 1 0 _ _ (Saves-save _) (λ t. Saves-of_Emits _ (Emits-pure _))
  Saves-after_pods vu (ok (pod ∷ pods)) =
      Saves-bind 0 1 _ _ (Saves-load _ _ _) (λ t. Saves-after_keys (pod ∷ pods) vu _)

  Saves-pass : (vu : VaultUnsealer) → Saves 1 (pass env vu)
  unfolding pass get_vault_pods
  Saves-pass vu = Saves-bind 0 1 _ _ (quiet _ _ tt) λ t.
      let vu' = begun (perform now env.now t).0 vu in
      Saves-bind 0 1 _ _ (Saves-list_selected vu' _) (λ t. Saves-after_pods vu' _)

  Saves-reconcile : (vu : VaultUnsealer) → Saves 1 (reconcile_vault_unsealer env vu)
  unfolding reconcile_vault_unsealer
  Saves-reconcile vu = Saves-bind 0 1 _ _ (quiet _ _ tt) λ t.
      Saves-bind 1 0 _ _ (Saves-pass vu) λ t. Saves-of_Emits _ (
        Emits-bind _ _ (Emits-perform _ _ tt) λ stop.
          Emits-bind _ _ (Emits-emit _ tt)
            λ _. Emits-bind _ _ (Emits-emit _ tt) (λ _. Emits-pure _))

  -- A pass writes the status of its object exactly once, on every branch, errors included.
  pub count_saves-reconcile_vault_unsealer :
      (vu : VaultUnsealer) (t : Trace)
      → count_saves (reconcile_vault_unsealer env vu t).1 ≡ 1 + count_saves t
  count_saves-reconcile_vault_unsealer vu t = (Saves-reconcile vu).at t
