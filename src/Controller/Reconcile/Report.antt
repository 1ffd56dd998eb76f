-- ===== src/Controller/Reconcile/Report.antt =====
-- What one pass saves as the status of its object, and what it returns, on every branch.
use vault_unsealer.Prelude.{◌≡◌, refl, ap, ◌∙◌, List, [], ◌∷◌, ◌++◌, none, some, Option, length}
use vault_unsealer.Text.{Text}
use vault_unsealer.Result.{Error, Result, ok, err}
use vault_unsealer.Api.{VaultUnsealer}
use vault_unsealer.Cluster.{
  Env, Trace, ◌>>=◌, Pod, Call, update_status, inc, observe, now, set, unseal_keys_loaded,
}
use vault_unsealer.Secrets.Loader.{load_unseal_keys}
use vault_unsealer.Controller.Pods.{Visit, visit_pods}
use vault_unsealer.Controller.Pods.Loop.{IsVisited, visit_pods-IsVisited}
use vault_unsealer.Controller.Reconcile.{
  Outcome, begun, interval_of, pods_failure, no_pods, keys_failure, completed, get_vault_pods, save,
  after_save, finish_pass, after_keys, after_pods, pass, reconcile_vault_unsealer,
}

-- The status that was written last.
unfoldable pub last_saved : Trace → Option VaultUnsealer
last_saved [] = none
last_saved (update_status vu ∷ t) = some vu
last_saved (c ∷ t) = last_saved t

-- The visits of the loop over `pods` with the keys that were loaded up to `t`.
abbrev pub visits : Env → VaultUnsealer → List Pod → List Text → Trace → Visit
visits env vu pods keys t =
    (visit_pods env keys pods (record { vu = vu; unsealed_count = 0 })
      (set (unseal_keys_loaded vu.name vu.namespace) (length keys) ∷ t)).0

-- How a pass over `vu` ends whose pods are `listed` and for which the loader gives `loading`: the error
-- that it returns and the object that it saves, which the API server answers with `told`.
pub data Report (env : Env) (vu : VaultUnsealer) (listed : Result (List Pod))
    (loading : Result (List Text) × Trace) (told error : Option Error) (saved : VaultUnsealer)
    : Type 0 where
  listing_failed :
      (e : Error)
      → listed ≡ err e
      → error ≡ some e
      → saved ≡ pods_failure e vu
      → Report env vu listed loading told error saved
  no_pods_found :
      listed ≡ ok []
      → error ≡ none
      → saved ≡ no_pods vu
      → Report env vu listed loading told error saved
  keys_failed :
      (pod : Pod) (pods : List Pod) (e : Error)
      → listed ≡ ok (pod ∷ pods)
      → loading.0 ≡ err e
      → error ≡ some e
      → saved ≡ keys_failure e vu
      → Report env vu listed loading told error saved
  visited :
      (pod : Pod) (pods : List Pod) (keys : List Text)
      → listed ≡ ok (pod ∷ pods)
      → loading.0 ≡ ok keys
      → error ≡ told
      → saved ≡ completed (visits env vu (pod ∷ pods) keys loading.1)
      → Report env vu listed loading told error saved

-- The outcome and the history behind a pass agree on one report.
pub record IsReported (env : Env) (vu : VaultUnsealer) (listed : Result (List Pod))
    (loading : Result (List Text) × Trace) (outcome : Outcome) (t : Trace) : Type 0 where
  pub saved : VaultUnsealer
  pub is_last : last_saved t ≡ some saved
  pub newer : Trace
  pub before : Trace
  pub history : t ≡ newer ++ (update_status saved ∷ before)
  pub report : Report env vu listed loading (env.update_status before saved) outcome.error saved
  pub requeued : outcome.requeue_after ≡ interval_of vu.spec.interval

pub visits-IsVisited :
    (env : Env) (vu : VaultUnsealer) (pods : List Pod) (keys : List Text) (t : Trace)
    → IsVisited (record { vu = vu; unsealed_count = 0 }) (visits env vu pods keys t) pods
visits-IsVisited env vu pods keys t = visit_pods-IsVisited env keys pods _ _

module _ (env : Env) (vu : VaultUnsealer) (pod : Pod) (pods : List Pod) (keys : List Text)
    (loaded : Trace) where
  abbrev end : Visit
  end = visits env vu (pod ∷ pods) keys loaded

  -- behind the update of the status, which was answered with `failure`
  after_save-IsReported :
      (failure : Option Error) (t : Trace)
      → failure ≡ env.update_status t (completed end)
      → (let p = after_save env end.vu failure (update_status (completed end) ∷ t) in
          IsReported env vu (ok (pod ∷ pods)) (ok keys, loaded) p.0 p.1)
  unfolding after_save ◌>>=◌ last_saved
  after_save-IsReported none t e = record {
    saved = completed end;
    is_last = refl;
    newer = [];
    before = t;
    history = refl;
    report = visited pod pods keys refl refl e refl;
    requeued =
        ap (λ (x : VaultUnsealer). interval_of x.spec.interval)
          (visits-IsVisited env vu (pod ∷ pods) keys loaded).vu;
  }
  after_save-IsReported (some x) t e = record {
    saved = completed end;
    is_last = refl;
    newer = _ ∷ [];
    before = t;
    history = refl;
    report = visited pod pods keys refl refl e refl;
    requeued =
        ap (λ (x : VaultUnsealer). interval_of x.spec.interval)
          (visits-IsVisited env vu (pod ∷ pods) keys loaded).vu;
  }

  finish_pass-IsReported :
      (t : Trace)
      → (let p = finish_pass env end t in
          IsReported env vu (ok (pod ∷ pods)) (ok keys, loaded) p.0 p.1)
  unfolding finish_pass save ◌>>=◌
  finish_pass-IsReported t = after_save-IsReported _ _ refl

module _ (env : Env) where
  after_keys-IsReported :
      (vu : VaultUnsealer) (pod : Pod) (pods : List Pod) (keys : Result (List Text)) (t : Trace)
      → (let p = after_keys env (pod ∷ pods) vu keys t in
          IsReported env vu (ok (pod ∷ pods)) (keys, t) p.0 p.1)
  unfolding after_keys ◌>>=◌ save last_saved
  after_keys-IsReported vu pod pods (err e) t = record {
    saved = keys_failure e vu;
    is_last = refl;
    newer = [];
    before = _;
    history = refl;
    report = keys_failed pod pods e refl refl refl refl;
    requeued = refl;
  }
  after_keys-IsReported vu pod pods (ok keys) t = finish_pass-IsReported env vu pod pods keys t _

  -- What the loader gives for the object behind `t`.
  abbrev pub loading_for : VaultUnsealer → Trace → Result (List Text) × Trace
  loading_for vu t =
      load_unseal_keys env vu.namespace vu.spec.unseal_keys_secret_refs vu.spec.key_threshold t

  after_pods-IsReported :
      (vu : VaultUnsealer) (listed : Result (List Pod)) (t : Trace)
      → (let p = after_pods env vu listed t in IsReported env vu listed (loading_for vu t) p.0 p.1)
  unfolding after_pods ◌>>=◌ save last_saved
  after_pods-IsReported vu (err e) t = record {
    saved = pods_failure e vu;
    is_last = refl;
    newer = [];
    before = _;
    history = refl;
    report = listing_failed e refl refl refl;
    requeued = refl;
  }
  after_pods-IsReported vu (ok []) t = record {
    saved = no_pods vu;
    is_last = refl;
    newer = [];
    before = _;
    history = refl;
    report = no_pods_found refl refl refl;
    requeued = refl;
  }
  after_pods-IsReported vu (ok (pod ∷ pods)) t = after_keys-IsReported vu pod pods _ _

  -- behind three calls that save nothing
  IsReported-later :
      (vu : VaultUnsealer) (listed : Result (List Pod)) (loading : Result (List Text) × Trace)
      (outcome : Outcome) (t : Trace) (a b c : Call)
      → last_saved (a ∷ b ∷ c ∷ t) ≡ last_saved t
      → IsReported env vu listed loading outcome t
      → IsReported env vu listed loading outcome (a ∷ b ∷ c ∷ t)
  IsReported-later vu listed loading outcome t a b c e r = record {
    saved = r.saved;
    is_last = e ∙ r.is_last;
    newer = a ∷ b ∷ c ∷ r.newer;
    before = r.before;
    history = ap (λ w. a ∷ b ∷ c ∷ w) r.history;
    report = r.report;
    requeued = r.requeued;
  }

  -- The object of a pass that begins behind `t`, the pods that it is told of, and what the loader then
  -- gives for it.
  abbrev pub begun_at : VaultUnsealer → Trace → VaultUnsealer
  begun_at vu t = begun (env.now (now ∷ t)) vu

  abbrev pub listed_at : VaultUnsealer → Trace → Result (List Pod)
  listed_at vu t = (get_vault_pods env (begun_at vu t) (now ∷ now ∷ t)).0

  abbrev pub loading_at : VaultUnsealer → Trace → Result (List Text) × Trace
  loading_at vu t =
      loading_for (begun_at vu t) (get_vault_pods env (begun_at vu t) (now ∷ now ∷ t)).1

  pub reconcile_vault_unsealer-IsReported :
      (vu : VaultUnsealer) (t : Trace)
      → (let p = reconcile_vault_unsealer env vu t in
          IsReported env (begun_at vu t) (listed_at vu t) (loading_at vu t) p.0 p.1)
  unfolding reconcile_vault_unsealer pass ◌>>=◌ last_saved
  reconcile_vault_unsealer-IsReported vu t =
      IsReported-later (begun_at vu t) (listed_at vu t) (loading_at vu t) _ _ (inc _) (observe _ _)
        now refl (after_pods-IsReported (begun_at vu t) (listed_at vu t) _)
