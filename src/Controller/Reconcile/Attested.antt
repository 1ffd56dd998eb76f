-- ===== src/Controller/Reconcile/Attested.antt =====
-- Why a name is in the status that a pass saves.
use vault_unsealer.Prelude.{
  ◌≡◌, refl, subst, ◌∙◌, inl, inr, List, [], ◌∷◌, ◌++◌, Option, none, some, Memᴰ, length,
}
use vault_unsealer.Text.{Text}
use vault_unsealer.Result.{Error, Result, ok, err}
use vault_unsealer.Api.{VaultUnsealer}
use vault_unsealer.Cluster.{Env, Call, Trace, ◌>>=◌, Pod, now, set, unseal_keys_loaded}
use vault_unsealer.Cluster.Emits.{Emits-pure, Emits-perform}
use vault_unsealer.Cluster.Grew.{Grew, Grew-of_Emits}
use vault_unsealer.Secrets.Loader.Calls.{load_unseal_keys-Emits}
use vault_unsealer.Controller.Connection.{vault_url}
use vault_unsealer.Controller.Conditions.{set_condition}
use vault_unsealer.Controller.Pods.{Visit, visit_pods}
use vault_unsealer.Controller.Pods.Loop.Attested.{
  IsAttested, IsHeard-earlier, IsHeard-later, visit_pods-IsAttested,
}
use vault_unsealer.Controller.Reconcile.{
  completed, pods_failure, no_pods, keys_failure, list_selected, get_vault_pods, save, after_save,
  finish_pass, after_keys, after_pods, pass, reconcile_vault_unsealer,
}
use vault_unsealer.Controller.Reconcile.Report.{last_saved, begun_at, listed_at}
use vault_unsealer.Controller.Reconcile.Verdict.{unsealed_pods-completed}

-- The pods that were found.
abbrev pub pods_in : Result (List Pod) → List Pod
pods_in (err e) = []
pods_in (ok pods) = pods

-- The status that is saved last names as unsealed only pods of the list whose Vault said so between
-- `t` and `u`.
pub record IsWitnessed (env : Env) (url : Text) (pods : List Pod) (t u : Trace) : Type 0 where
  pub saved : VaultUnsealer
  pub is_last : last_saved u ≡ some saved
  pub attested :
      (name : Text) → Memᴰ name saved.status.unsealed_pods → IsAttested env url pods t u name

module _ (env : Env) (url : Text) (pods : List Pod) where
  pub IsAttested-later :
      (new t u : Trace) (name : Text)
      → IsAttested env url pods t u name
      → IsAttested env url pods t (new ++ u) name
  IsAttested-later new t u name (pod, m, y, e, heard) =
      (pod, m, y, e, IsHeard-later env (vault_url pod.pod_ip url) new t u _ refl heard)

  IsAttested-earlier :
      (new s t u : Trace) (name : Text)
      → t ≡ new ++ s
      → IsAttested env url pods t u name
      → IsAttested env url pods s u name
  IsAttested-earlier new s t u name grown (pod, m, y, e, heard) =
      (pod, m, y, e, IsHeard-earlier env (vault_url pod.pod_ip url) new s t u grown heard)

  IsWitnessed-earlier :
      {P : Call → Type 0} (s t u : Trace)
      → Grew P s t
      → IsWitnessed env url pods t u
      → IsWitnessed env url pods s u
  IsWitnessed-earlier s t u (new, e, all) h = record {
    saved = h.saved;
    is_last = h.is_last;
    attested = λ name m. IsAttested-earlier new s t u name e (h.attested name m);
  }

  after_save-IsWitnessed :
      (v : Visit) (failure : Option Error) (t u : Trace)
      → last_saved u ≡ some (completed v)
      → ((name : Text)
          → Memᴰ name (completed v).status.unsealed_pods
          → IsAttested env url pods t u name)
      → IsWitnessed env url pods t (after_save env v.vu failure u).1
  unfolding after_save ◌>>=◌ last_saved
  after_save-IsWitnessed v none t u e h = record { saved = completed v; is_last = e; attested = h }
  after_save-IsWitnessed v (some x) t u e h = record {
    saved = completed v;
    is_last = e;
    attested = λ name m. IsAttested-later (_ ∷ []) t u name (h name m);
  }

  finish_pass-IsWitnessed :
      (v : Visit) (t u : Trace)
      → ((name : Text) → Memᴰ name v.vu.status.unsealed_pods → IsAttested env url pods t u name)
      → IsWitnessed env url pods t (finish_pass env v u).1
  unfolding finish_pass ◌>>=◌ save last_saved
  finish_pass-IsWitnessed v t u h = after_save-IsWitnessed v _ t _ refl λ name m.
      IsAttested-later (_ ∷ _ ∷ _ ∷ []) t u name
        (h name (subst (Memᴰ name) (unsealed_pods-completed v) m))

  -- A pass that failed names no pod.
  none_named :
      (saved vu : VaultUnsealer) (t u : Trace)
      → last_saved u ≡ some saved
      → saved.status.unsealed_pods ≡ vu.status.unsealed_pods
      → vu.status.unsealed_pods ≡ []
      → IsWitnessed env url pods t u
  none_named saved vu t u is same none' = record {
    saved = saved;
    is_last = is;
    attested = λ name m. elim (subst (Memᴰ name) (same ∙ none') m) [ ];
  }

module _ (env : Env) (vu : VaultUnsealer) (bare : vu.status.unsealed_pods ≡ []) where
  after_keys-IsWitnessed :
      (pods : List Pod) (keys : Result (List Text)) (u : Trace)
      → IsWitnessed env vu.spec.vault.url pods u (after_keys env pods vu keys u).1
  unfolding after_keys ◌>>=◌ save last_saved set_condition
  after_keys-IsWitnessed pods (err e) u =
      none_named env vu.spec.vault.url pods (keys_failure e vu) vu u _ refl refl bare
  after_keys-IsWitnessed pods (ok keys) u =
      let start = let it : Visit = record { vu = vu; unsealed_count = 0 } in it in
      let loaded = set (unseal_keys_loaded vu.name vu.namespace) (length keys) ∷ u in
      finish_pass-IsWitnessed env vu.spec.vault.url pods (visit_pods env keys pods start loaded).0 u
        (visit_pods env keys pods start loaded).1
        λ name m. elim (visit_pods-IsAttested env keys pods start loaded name m) [
          | inl old ↦ elim (subst (Memᴰ name) bare old) [ ]
          | inr new ↦
              IsAttested-earlier env vu.spec.vault.url pods
                (set (unseal_keys_loaded vu.name vu.namespace) (length keys) ∷ []) u loaded _ name
                refl new
        ]

  pub after_pods-IsWitnessed :
      (listed : Result (List Pod)) (u : Trace)
      → IsWitnessed env vu.spec.vault.url (pods_in listed) u (after_pods env vu listed u).1
  unfolding after_pods ◌>>=◌ save last_saved set_condition
  after_pods-IsWitnessed (err e) u =
      none_named env vu.spec.vault.url [] (pods_failure e vu) vu u _ refl refl bare
  after_pods-IsWitnessed (ok []) u =
      none_named env vu.spec.vault.url [] (no_pods vu) vu u _ refl refl bare
  after_pods-IsWitnessed (ok (pod ∷ pods)) u =
      IsWitnessed-earlier env vu.spec.vault.url (pod ∷ pods) u _ _
        (Grew-of_Emits u (
          load_unseal_keys-Emits env vu.namespace (λ c. Unit) vu.spec.unseal_keys_secret_refs
            vu.spec.key_threshold (λ ref m. tt)))
        (after_keys-IsWitnessed (pod ∷ pods) _ _)

list_selected-Grew :
    (env : Env) (vu : VaultUnsealer) (e : Option Error) (u : Trace)
    → Grew (λ c. Unit) u (list_selected env vu e u).1
unfolding list_selected
list_selected-Grew env vu none u = Grew-of_Emits u (Emits-perform _ _ tt)
list_selected-Grew env vu (some e) u = Grew-of_Emits u (Emits-pure _)

-- Each name in the unsealed pods of the status that a pass saves is that of a ready pod that the pass
-- found, and in that pass a call to the address that the pod's IP and the URL of the specification
-- give was answered by a Vault that is not sealed.
pub reconcile_vault_unsealer-IsWitnessed :
    (env : Env) (vu : VaultUnsealer) (t : Trace)
    → IsWitnessed env vu.spec.vault.url
        (pods_in (listed_at env vu t))
        t
        (reconcile_vault_unsealer env vu t).1
unfolding reconcile_vault_unsealer pass get_vault_pods ◌>>=◌ last_saved
reconcile_vault_unsealer-IsWitnessed env vu t =
    let url = vu.spec.vault.url in
    let found = pods_in (listed_at env vu t) in
    let start = begun_at env vu t in
    let listing =
      list_selected-Grew env start (env.parse_selector vu.spec.vault_label_selector)
        (now ∷ now ∷ t) in
    let body =
      IsWitnessed-earlier env url found {P = λ c. Unit} t (now ∷ now ∷ t) _
        (now ∷ now ∷ [], refl, (tt, (tt, tt)))
        (IsWitnessed-earlier env url found (now ∷ now ∷ t) _ _ listing
          (after_pods-IsWitnessed env start refl (listed_at env vu t) _)) in
    record {
      saved = body.saved;
      is_last = body.is_last;
      attested = λ name m.
          IsAttested-later env url found (_ ∷ _ ∷ now ∷ []) t _ name (body.attested name m);
    }
