-- ===== src/Controller/Reconcile/Full.antt =====
-- A pass that finds pods and loads keys: the histories between its parts.
use vault_unsealer.Prelude.{◌≡◌, refl, sym, subst, ap, ◌∙◌, List, ◌∷◌, Option, none, some, length}
use vault_unsealer.Text.{Text}
use vault_unsealer.Result.{Error, Result, ok}
use vault_unsealer.Api.{VaultUnsealer}
use vault_unsealer.Cluster.{Env, Trace, ◌>>=◌, pure, perform, Pod, now, set, unseal_keys_loaded}
use vault_unsealer.Cluster.Emits.{Emits-perform, Emits-pure}
use vault_unsealer.Cluster.Grew.{Grew, Grew-refl, Grew-call, Grew-trans, Grew-of_Emits}
use vault_unsealer.Secrets.Loader.{load_unseal_keys}
use vault_unsealer.Secrets.Loader.Calls.{load_unseal_keys-Emits}
use vault_unsealer.Controller.Pods.{Visit, visit_pods}
use vault_unsealer.Controller.Pods.Loop.Ready.{IsSilent}
use vault_unsealer.Controller.Reconcile.{
  completed, list_selected, get_vault_pods, save, after_save, finish_pass, after_keys, after_pods,
  pass, reconcile_vault_unsealer,
}
use vault_unsealer.Controller.Reconcile.Report.{last_saved, begun_at, listed_at}

module _ (env : Env) where
  -- the history behind the list of pods, and the keys that the pass loads
  abbrev pub listing : VaultUnsealer → Trace → Trace
  listing vu t = (get_vault_pods env (begun_at env vu t) (now ∷ now ∷ t)).1

  abbrev pub loaded_at : VaultUnsealer → Trace → Result (List Text) × Trace
  loaded_at vu t =
      load_unseal_keys env vu.namespace vu.spec.unseal_keys_secret_refs vu.spec.key_threshold
        (listing vu t)

  -- the visit that the loop starts from, and the history then
  abbrev pub fresh : VaultUnsealer → Visit
  fresh vu = record { vu = vu; unsealed_count = 0 }

  abbrev pub counted : VaultUnsealer → List Text → Trace → Trace
  counted vu keys u = set (unseal_keys_loaded vu.name vu.namespace) (length keys) ∷ u

  after_save_saved :
      (v : Visit) (failure : Option Error) (u : Trace)
      → last_saved (after_save env v.vu failure u).1 ≡ last_saved u
  unfolding after_save ◌>>=◌ pure last_saved
  after_save_saved v none u = refl
  after_save_saved v (some e) u = refl

  after_keys_saved :
      (pods : List Pod) (vu : VaultUnsealer) (keys : List Text) (u : Trace)
      → last_saved (after_keys env pods vu (ok keys) u).1
        ≡ some (completed (visit_pods env keys pods (fresh vu) (counted vu keys u)).0)
  unfolding after_keys finish_pass save ◌>>=◌ last_saved
  after_keys_saved pods vu keys u =
      after_save_saved (visit_pods env keys pods (fresh vu) (counted vu keys u)).0 _ _

  listing-IsSilent :
      (vu : VaultUnsealer) (e : Option Error) (u : Trace)
      → Grew IsSilent u (list_selected env vu e u).1
  unfolding list_selected
  listing-IsSilent vu none u = Grew-of_Emits u (Emits-perform _ _ tt)
  listing-IsSilent vu (some e) u = Grew-of_Emits u (Emits-pure _)

  pub loaded-IsSilent : (vu : VaultUnsealer) (t : Trace) → Grew IsSilent t (loaded_at vu t).1
  unfolding get_vault_pods
  loaded-IsSilent vu t =
      Grew-trans
        (Grew-trans (Grew-call now tt (Grew-call now tt Grew-refl)) (
          listing-IsSilent (begun_at env vu t) (env.parse_selector vu.spec.vault_label_selector)
            (now ∷ now ∷ t)))
        (Grew-of_Emits _ (
          load_unseal_keys-Emits env vu.namespace IsSilent vu.spec.unseal_keys_secret_refs
            vu.spec.key_threshold (λ ref m. tt)))

  pub last_saved_lem :
      (vu : VaultUnsealer) (t : Trace) (pod : Pod) (pods : List Pod) (keys : List Text)
      → listed_at env vu t ≡ ok (pod ∷ pods)
      → (loaded_at vu t).0 ≡ ok keys
      → last_saved (reconcile_vault_unsealer env vu t).1
        ≡ some (
            completed
              (visit_pods env keys
                (pod ∷ pods)
                (fresh (begun_at env vu t))
                (counted vu keys (loaded_at vu t).1)).0)
  unfolding reconcile_vault_unsealer pass after_pods ◌>>=◌ last_saved pure
  last_saved_lem vu t pod pods keys listed loaded =
      let start = begun_at env vu t in
      ap (λ l. last_saved (after_pods env start l (listing vu t)).1) listed
      ∙ ap (λ r. last_saved (after_keys env (pod ∷ pods) start r (loaded_at vu t).1).1) loaded
      ∙ after_keys_saved (pod ∷ pods) start keys (loaded_at vu t).1

  after_save-IsSilent :
      {u : Trace} (v : Visit) (failure : Option Error) (w : Trace)
      → Grew IsSilent u w
      → Grew IsSilent u (after_save env v.vu failure w).1
  unfolding after_save ◌>>=◌ pure
  after_save-IsSilent v none w h = h
  after_save-IsSilent v (some e) w h = Grew-call _ tt h

  finish_pass-IsSilent : (v : Visit) (u : Trace) → Grew IsSilent u (finish_pass env v u).1
  unfolding finish_pass save ◌>>=◌ perform
  finish_pass-IsSilent v u =
      after_save-IsSilent v _ _ (Grew-call _ tt (Grew-call _ tt (Grew-call _ tt Grew-refl)))

  -- If no key was submitted since a point up to the end of the loop, none is up to the end of the pass.
  pub IsSilent-reconcile_vault_unsealer :
      (vu : VaultUnsealer) (t base : Trace) (pod : Pod) (pods : List Pod) (keys : List Text)
      → listed_at env vu t ≡ ok (pod ∷ pods)
      → (loaded_at vu t).0 ≡ ok keys
      → Grew IsSilent base
          (visit_pods env keys
            (pod ∷ pods)
            (fresh (begun_at env vu t))
            (counted vu keys (loaded_at vu t).1)).1
      → Grew IsSilent base (reconcile_vault_unsealer env vu t).1
  unfolding reconcile_vault_unsealer pass after_pods after_keys ◌>>=◌ pure
  IsSilent-reconcile_vault_unsealer vu t base pod pods keys listed loaded grew =
      let start = begun_at env vu t in
      let body =
        ap (λ l. (after_pods env start l (listing vu t)).1) listed
        ∙ ap (λ r. (after_keys env (pod ∷ pods) start r (loaded_at vu t).1).1) loaded in
      Grew-call _ tt (
        Grew-call _ tt (
          Grew-call now tt
            (subst (Grew IsSilent base) (sym body) (Grew-trans grew (finish_pass-IsSilent _ _)))))
