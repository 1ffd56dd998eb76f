-- ===== src/Controller/Reconcile/Accepted.antt =====
-- What a pass tells of the API server's answer to the status that it saves.
use vault_unsealer.Prelude.{
  ◌≡◌, refl, sym, ◌∙◌, ◌⊎◌, inl, inr, ap, List, [], ◌∷◌, ◌++◌, Option, none, some,
}
use vault_unsealer.Text.{Text}
use vault_unsealer.Result.{Error, Result, ok, err}
use vault_unsealer.Api.{VaultUnsealer}
use vault_unsealer.Cluster.{Env, Trace, ◌>>=◌, Pod, Call, update_status, inc, observe, now}
use vault_unsealer.Controller.Pods.{Visit}
use vault_unsealer.Controller.Reconcile.{
  Outcome, completed, pods_failure, no_pods, keys_failure, save, after_save, finish_pass,
  after_keys, after_pods, pass, reconcile_vault_unsealer,
}
use vault_unsealer.Controller.Reconcile.Report.{last_saved, begun_at, listed_at}

-- The status `saved` was written behind `before`, and if no error is told, there were no pods or the
-- API server accepted it.
pub record IsAccounted (env : Env) (listed : Result (List Pod)) (outcome : Outcome) (t : Trace)
    : Type 0 where
  pub saved : VaultUnsealer
  pub is_last : last_saved t ≡ some saved
  pub newer : Trace
  pub before : Trace
  pub history : t ≡ newer ++ (update_status saved ∷ before)
  pub told : outcome.error ≡ none → (listed ≡ ok []) ⊎ (env.update_status before saved ≡ none)

module _ (env : Env) where
  after_save-IsAccounted :
      (listed : Result (List Pod)) (v : Visit) (failure : Option Error) (t : Trace)
      → failure ≡ env.update_status t (completed v)
      → (let p = after_save env v.vu failure (update_status (completed v) ∷ t) in
          IsAccounted env listed p.0 p.1)
  unfolding after_save ◌>>=◌ last_saved
  after_save-IsAccounted listed v none t e = record {
    saved = completed v;
    is_last = refl;
    newer = [];
    before = t;
    history = refl;
    told = λ h. inr (sym e);
  }
  after_save-IsAccounted listed v (some x) t e = record {
    saved = completed v;
    is_last = refl;
    newer = _ ∷ [];
    before = t;
    history = refl;
    told = λ h. cc;
  }

  finish_pass-IsAccounted :
      (listed : Result (List Pod)) (v : Visit) (t : Trace)
      → IsAccounted env listed (finish_pass env v t).0 (finish_pass env v t).1
  unfolding finish_pass save ◌>>=◌
  finish_pass-IsAccounted listed v t = after_save-IsAccounted listed v _ _ refl

  after_keys-IsAccounted :
      (listed : Result (List Pod)) (pods : List Pod) (vu : VaultUnsealer)
      (keys : Result (List Text)) (t : Trace)
      → (let p = after_keys env pods vu keys t in IsAccounted env listed p.0 p.1)
  unfolding after_keys ◌>>=◌ save last_saved
  after_keys-IsAccounted listed pods vu (err e) t = record {
    saved = keys_failure e vu;
    is_last = refl;
    newer = [];
    before = _;
    history = refl;
    told = λ h. cc;
  }
  after_keys-IsAccounted listed pods vu (ok keys) t = finish_pass-IsAccounted listed _ _

  after_pods-IsAccounted :
      (vu : VaultUnsealer) (listed : Result (List Pod)) (t : Trace)
      → (let p = after_pods env vu listed t in IsAccounted env listed p.0 p.1)
  unfolding after_pods ◌>>=◌ save last_saved
  after_pods-IsAccounted vu (err e) t = record {
    saved = pods_failure e vu;
    is_last = refl;
    newer = [];
    before = _;
    history = refl;
    told = λ h. cc;
  }
  after_pods-IsAccounted vu (ok []) t = record {
    saved = no_pods vu;
    is_last = refl;
    newer = [];
    before = _;
    history = refl;
    told = λ h. inl refl;
  }
  after_pods-IsAccounted vu (ok (pod ∷ pods)) t =
      after_keys-IsAccounted (ok (pod ∷ pods)) (pod ∷ pods) vu _ _

  -- behind three calls that save nothing
  IsAccounted-later :
      (a b c : Call) (listed : Result (List Pod)) (outcome : Outcome) (t : Trace)
      → last_saved (a ∷ b ∷ c ∷ t) ≡ last_saved t
      → IsAccounted env listed outcome t
      → IsAccounted env listed outcome (a ∷ b ∷ c ∷ t)
  IsAccounted-later a b c listed outcome t e r = record {
    saved = r.saved;
    is_last = e ∙ r.is_last;
    newer = a ∷ b ∷ c ∷ r.newer;
    before = r.before;
    history = ap (λ w. a ∷ b ∷ c ∷ w) r.history;
    told = r.told;
  }

  -- The status that a pass saves is written in its history, and if the pass returns no error, then no
  -- pods were found, or the API server accepted that status.
  pub reconcile_vault_unsealer-IsAccounted :
      (vu : VaultUnsealer) (t : Trace)
      → (let p = reconcile_vault_unsealer env vu t in IsAccounted env (listed_at env vu t) p.0 p.1)
  unfolding reconcile_vault_unsealer pass ◌>>=◌ last_saved
  reconcile_vault_unsealer-IsAccounted vu t =
      let r = after_pods-IsAccounted (begun_at env vu t) (listed_at env vu t) _ in
      IsAccounted-later (inc _) (observe _ _) now (listed_at env vu t) _ _ refl r
