-- ===== src/Controller/Reconcile/Metrics.antt =====
-- The series that a whole pass writes, against those that the cleanup of the object that it saves
-- deletes.
use vault_unsealer.Prelude.{
  ◌≡◌, refl, sym, ap, subst, ◌∙◌, inl, inr, List, [], ◌∷◌, Option, none, some, Memᴰ, length, arith,
}
use vault_unsealer.Text.{Text}
use vault_unsealer.Result.{Error, Result, ok, err}
use vault_unsealer.Api.{VaultUnsealer}
use vault_unsealer.Cluster.{
  Env, Call, Trace, ◌>>=◌, Pod, Series, now, inc, set, observe, delete, unseal_keys_loaded,
}
use vault_unsealer.Cluster.Emits.{Emits-pure, Emits-perform}
use vault_unsealer.Cluster.Grew.{Grew, Grew-refl, Grew-call, Grew-trans, Grew-of_Emits}
use vault_unsealer.Secrets.Loader.Calls.{load_unseal_keys-Emits}
use vault_unsealer.Controller.Conditions.{set_condition, clear_condition}
use vault_unsealer.Controller.Pods.{Visit, visit_pods}
use vault_unsealer.Controller.Pods.Loop.{visit_pods-IsVisited}
use vault_unsealer.Controller.Pods.Loop.Cleaned.{WritesOnly, All-WritesOnly, visit_pods-Written}
use vault_unsealer.Controller.Lifecycle.{cleanup_metrics}
use vault_unsealer.Controller.Lifecycle.Cleanup.{IsSeriesOf, cleanup_metrics_complete}
use vault_unsealer.Controller.Reconcile.{
  begun, judge, completed, pods_failure, no_pods, keys_failure, list_selected, get_vault_pods, save,
  after_save, finish_pass, after_keys, after_pods, pass, reconcile_vault_unsealer,
}
use vault_unsealer.Controller.Reconcile.Report.{last_saved}

-- The same object, but for its status.
abbrev pub IsSame : VaultUnsealer → VaultUnsealer → Type 0
IsSame vu saved = (saved.name ≡ vu.name) × (saved.namespace ≡ vu.namespace)

-- From `t` to `u`, the status of `vu` was saved, and every series that was written is its own.
pub record IsRecorded (vu : VaultUnsealer) (t u : Trace) : Type 0 where
  pub saved : VaultUnsealer
  pub is_last : last_saved u ≡ some saved
  pub same : IsSame vu saved
  pub grew : Grew (WritesOnly (IsSeriesOf vu.name vu.namespace saved.status.pods_checked)) t u

IsSame-completed : (v : Visit) → IsSame v.vu (completed v)
unfolding judge set_condition clear_condition
IsSame-completed v = ground arith

pods_checked-completed : (v : Visit) → (completed v).status.pods_checked ≡ v.vu.status.pods_checked
unfolding judge set_condition clear_condition
pods_checked-completed v = ground arith

-- The calls that write series of `vu` alone, with the pods `names`.
abbrev W : VaultUnsealer → List Text → Call → Type 0
W vu names = WritesOnly (IsSeriesOf vu.name vu.namespace names)

module _ (env : Env) (vu : VaultUnsealer) where
  after_save-IsRecorded :
      (v : Visit) (failure : Option Error) (t u : Trace)
      → IsSame vu v.vu
      → IsSame vu (completed v)
      → last_saved u ≡ some (completed v)
      → Grew (W vu (completed v).status.pods_checked) t u
      → IsRecorded vu t (after_save env v.vu failure u).1
  unfolding after_save ◌>>=◌ last_saved
  after_save-IsRecorded v none t u same same' e h = record {
    saved = completed v;
    is_last = e;
    same = same';
    grew = h;
  }
  after_save-IsRecorded v (some x) t u same same' e h = record {
    saved = completed v;
    is_last = e;
    same = same';
    grew = Grew-call _ (same.0, same.1, inr (inr refl)) h;
  }

  finish_pass-IsRecorded :
      (v : Visit) (t u : Trace)
      → IsSame vu v.vu
      → Grew (W vu v.vu.status.pods_checked) t u
      → IsRecorded vu t (finish_pass env v u).1
  unfolding finish_pass save ◌>>=◌ last_saved
  finish_pass-IsRecorded v t u same h =
      let final = IsSame-completed v in
      let kept = subst (λ names. Grew (W vu names) t u) (sym (pods_checked-completed v)) h in
      after_save-IsRecorded v _ t _ same (final.0 ∙ same.0, final.1 ∙ same.1) refl
        (Grew-call _ tt (Grew-call _ same (Grew-call _ same kept)))

  after_keys-IsRecorded :
      (pods : List Pod) (keys : Result (List Text)) (t u : Trace)
      → ((names : List Text) → Grew (W vu names) t u)
      → IsRecorded vu t (after_keys env pods vu keys u).1
  unfolding after_keys ◌>>=◌ save last_saved set_condition
  after_keys-IsRecorded pods (err e) t u h = record {
    saved = keys_failure e vu;
    is_last = refl;
    same = (refl, refl);
    grew = Grew-call _ tt (Grew-call _ (refl, refl, inr (inl refl)) (h _));
  }
  after_keys-IsRecorded pods (ok keys) t u h =
      let start = let it : Visit = record { vu = vu; unsealed_count = 0 } in it in
      let loaded = set (unseal_keys_loaded vu.name vu.namespace) (length keys) ∷ u in
      let w = (visit_pods env keys pods start loaded).0 in
      let same = (visit_pods-IsVisited env keys pods start loaded).vu in
      finish_pass-IsRecorded w t _
        (ap (λ (x : VaultUnsealer). x.name) same, ap (λ (x : VaultUnsealer). x.namespace) same)
        (Grew-trans (Grew-call _ (refl, refl) (h _))
          (visit_pods-Written env keys vu.name vu.namespace pods start loaded (refl, refl)))

  after_pods-IsRecorded :
      (listed : Result (List Pod)) (t u : Trace)
      → ((names : List Text) → Grew (W vu names) t u)
      → IsRecorded vu t (after_pods env vu listed u).1
  unfolding after_pods ◌>>=◌ save last_saved set_condition
  after_pods-IsRecorded (err e) t u h = record {
    saved = pods_failure e vu;
    is_last = refl;
    same = (refl, refl);
    grew = Grew-call _ tt (Grew-call _ (refl, refl, inl refl) (h _));
  }
  after_pods-IsRecorded (ok []) t u h = record {
    saved = no_pods vu;
    is_last = refl;
    same = (refl, refl);
    grew = Grew-call _ tt (h _);
  }
  after_pods-IsRecorded (ok (pod ∷ pods)) t u h = after_keys-IsRecorded (pod ∷ pods) _ t _ λ names.
      Grew-trans (h names) (
        Grew-of_Emits u (
          load_unseal_keys-Emits env vu.namespace (W vu names) vu.spec.unseal_keys_secret_refs
            vu.spec.key_threshold (λ ref m. tt)))

  listing-Grew :
      (names : List Text) (e : Option Error) (u : Trace)
      → Grew (W vu names) u (list_selected env vu e u).1
  unfolding list_selected
  listing-Grew names none u = Grew-of_Emits u (Emits-perform _ _ tt)
  listing-Grew names (some e) u = Grew-of_Emits u (Emits-pure _)

pub reconcile_vault_unsealer-IsRecorded :
    (env : Env) (vu : VaultUnsealer) (t : Trace)
    → IsRecorded vu t (reconcile_vault_unsealer env vu t).1
unfolding reconcile_vault_unsealer pass get_vault_pods ◌>>=◌ last_saved
reconcile_vault_unsealer-IsRecorded env vu t =
    let start = begun (env.now (now ∷ t)) vu in
    let body =
      after_pods-IsRecorded env start (list_selected env start _ (now ∷ now ∷ t)).0 t _ λ names.
        Grew-trans (Grew-call now tt (Grew-call now tt Grew-refl)) (
          listing-Grew env start names (env.parse_selector vu.spec.vault_label_selector)
            (now ∷ now ∷ t)) in
    record {
      saved = body.saved;
      is_last = body.is_last;
      same = body.same;
      grew =
          Grew-call (inc _) (refl, refl)
            (Grew-call (observe _ _) (refl, refl) (Grew-call now tt body.grew));
    }

-- A series of the object before the pass is one of the object that it saves.
pub of_saved :
    (vu : VaultUnsealer) (s : Series) (saved : VaultUnsealer)
    → IsSame vu saved
    → IsSeriesOf vu.name vu.namespace saved.status.pods_checked s
    → IsSeriesOf saved.name saved.namespace saved.status.pods_checked s
of_saved vu s saved same h =
    subst (λ n. IsSeriesOf n saved.namespace saved.status.pods_checked s) (sym same.0)
      (subst (λ ns. IsSeriesOf vu.name ns saved.status.pods_checked s) (sym same.1) h)

-- Whatever the cluster and the Vaults answer, every series that a pass writes is deleted when the
-- metrics of the object that it saves are cleaned up, at whatever time.
cleanup_metrics-reconcile_vault_unsealer :
    (env : Env) (vu : VaultUnsealer) (t later : Trace)
    → (saved : VaultUnsealer) × (last_saved (reconcile_vault_unsealer env vu t).1 ≡ some saved)
      × Grew
          (WritesOnly (λ s. Memᴰ (delete s) (cleanup_metrics saved later).1))
          t
          (reconcile_vault_unsealer env vu t).1
cleanup_metrics-reconcile_vault_unsealer env vu t later =
    let body = reconcile_vault_unsealer-IsRecorded env vu t in
    let (new, e, all) = body.grew in
    (
      body.saved,
      body.is_last,
      (
        new,
        e,
        All-WritesOnly
            (λ s h.
              cleanup_metrics_complete body.saved later s (of_saved vu s body.saved body.same h))
            new all,
      ),
    )
