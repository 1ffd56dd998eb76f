-- ===== src/Controller/Reconcile/Verdict.antt =====
-- What a client reads from the conditions behind a pass.
use vault_unsealer.Prelude.{
  ◌≡◌, refl, sym, ap, subst, ◌∙◌, ◌⊎◌, inl, inr, List, [], ◌∷◌, ◌++◌, none, some, Option, Bool,
  true, false, ltb, length, if◌then◌else◌, arith,
}
use vault_unsealer.Text.{Text, text_eq}
use vault_unsealer.Result.{Error, Result, ok, err}
use vault_unsealer.Api.{VaultUnsealer}
use vault_unsealer.Cluster.{Env, Trace, Pod}
use vault_unsealer.Controller.Conditions.{
  set_condition, clear_condition, ready, keys_missing, pod_unavailable, status_true, status_false,
}
use vault_unsealer.Controller.Conditions.Laws.{IsTable}
use vault_unsealer.Controller.Pods.{Visit}
use vault_unsealer.Controller.Pods.Loop.{IsVisited}
use vault_unsealer.Controller.Reconcile.{judge, completed, reconcile_vault_unsealer}
use vault_unsealer.Controller.Reconcile.Report.{
  Report, listing_failed, no_pods_found, keys_failed, visited, visits, visits-IsVisited, last_saved,
  begun_at, listed_at, loading_at, reconcile_vault_unsealer-IsReported,
}
use vault_unsealer.Controller.Reconcile.Status.{
  HasTable, condition_status, condition_set, completed_conditions, visited_conditions,
  Report-HasTable,
}

abbrev pub some_name : List Text → Bool
some_name [] = false
some_name (n ∷ ns) = true

-- No pod was visited: the failure condition of the type is True, and Ready stays what it was.
abbrev pub IsFailed : Text → VaultUnsealer → VaultUnsealer → Type 0
IsFailed type vu saved =
    (condition_status type saved ≡ some status_true)
    × (condition_status ready saved ≡ condition_status ready vu)
    × (saved.status.unsealed_pods ≡ [])

-- The pods were visited: the failure conditions are gone, and Ready says whether the status names an
-- unsealed pod.
abbrev pub IsJudged : VaultUnsealer → Type 0
IsJudged saved =
    (condition_status pod_unavailable saved ≡ none)
    × (condition_status keys_missing saved ≡ none)
    × (condition_status ready saved
        ≡ some (if some_name saved.status.unsealed_pods then status_true else status_false))

-- What the conditions tell, by the pods that were listed and the keys that were loaded for them.
abbrev pub IsTold : Result (List Pod) → Result (List Text) → VaultUnsealer → VaultUnsealer → Type 0
IsTold (err e) loaded vu saved = IsFailed pod_unavailable vu saved
IsTold (ok []) loaded vu saved = IsFailed pod_unavailable vu saved
IsTold (ok (pod ∷ pods)) (err e) vu saved = IsFailed keys_missing vu saved
IsTold (ok (pod ∷ pods)) (ok keys) vu saved = IsJudged saved

pub IsTold-cases :
    (listed : Result (List Pod)) (loaded : Result (List Text)) (vu saved : VaultUnsealer)
    → IsTold listed loaded vu saved
    → (IsFailed pod_unavailable vu saved ⊎ IsFailed keys_missing vu saved) ⊎ IsJudged saved
IsTold-cases (err e) loaded vu saved h = inl (inl h)
IsTold-cases (ok []) loaded vu saved h = inl (inl h)
IsTold-cases (ok (pod ∷ pods)) (err e) vu saved h = inl (inr h)
IsTold-cases (ok (pod ∷ pods)) (ok keys) vu saved h = inr h

unavailable_set :
    (vu : VaultUnsealer) (reason message : Text)
    → vu.status.unsealed_pods ≡ []
    → IsFailed pod_unavailable vu (set_condition pod_unavailable status_true reason message vu)
unfolding text_eq set_condition
unavailable_set vu reason message none' = (
  condition_set pod_unavailable pod_unavailable _ _ _ vu,
  condition_set ready pod_unavailable _ _ _ vu,
  none',
)

missing_set :
    (vu : VaultUnsealer) (reason message : Text)
    → vu.status.unsealed_pods ≡ []
    → IsFailed keys_missing vu (set_condition keys_missing status_true reason message vu)
unfolding text_eq set_condition
missing_set vu reason message none' = (
  condition_set keys_missing keys_missing _ _ _ vu,
  condition_set ready keys_missing _ _ _ vu,
  none',
)

count_test : (us : List Text) → ltb 0 (length us) ≡ some_name us
count_test [] = refl
count_test (u ∷ us) = ground arith

pub unsealed_pods-completed :
    (v : Visit) → (completed v).status.unsealed_pods ≡ v.vu.status.unsealed_pods
unfolding judge set_condition clear_condition
unsealed_pods-completed v = ground arith

pub IsJudged-of :
    (vu : VaultUnsealer) (v : Visit) (pods : List Pod)
    → HasTable vu
    → vu.status.unsealed_pods ≡ []
    → IsVisited (record { vu = vu; unsealed_count = 0 }) v pods
    → IsJudged (completed v)
IsJudged-of vu v pods h none' w =
    let told = completed_conditions v (subst IsTable (sym (visited_conditions vu v pods w)) h) in
    let named : (completed v).status.unsealed_pods ≡ w.us =
      unsealed_pods-completed v
      ∙ ap (λ (x : VaultUnsealer). x.status.unsealed_pods) w.vu
      ∙ ap (λ l. l ++ w.us) none' in
    let counted : ltb 0 v.unsealed_count ≡ some_name (completed v).status.unsealed_pods =
      ap (λ n. ltb 0 n)
        (let c = w.count in let e : v.unsealed_count ≡ length w.us = omega arith in e)
      ∙ count_test w.us
      ∙ ap some_name (sym named) in
    (told.1, told.0, told.2 ∙ ap (λ b. some (if b then status_true else status_false)) counted)

Report-verdict :
    {env : Env} {vu saved : VaultUnsealer} {listed : Result (List Pod)}
    {loading : Result (List Text) × Trace} {told error : Option Error}
    → HasTable vu
    → vu.status.unsealed_pods ≡ []
    → Report env vu listed loading told error saved
    → IsTold listed loading.0 vu saved
Report-verdict {vu} {saved} {loading} h none' (listing_failed e l _ s) =
    subst (λ r. IsTold r loading.0 vu saved) (sym l)
      (subst (IsFailed pod_unavailable vu) (sym s) (unavailable_set vu _ _ none'))
Report-verdict {vu} {saved} {loading} h none' (no_pods_found l _ s) =
    subst (λ r. IsTold r loading.0 vu saved) (sym l)
      (subst (IsFailed pod_unavailable vu) (sym s) (unavailable_set vu _ _ none'))
Report-verdict {vu} {saved} {loading} h none' (keys_failed pod pods e l k _ s) =
    subst (λ r. IsTold r loading.0 vu saved) (sym l)
      (subst (λ ks. IsTold (ok (pod ∷ pods)) ks vu saved) (sym k)
        (subst (IsFailed keys_missing vu) (sym s) (missing_set vu _ _ none')))
Report-verdict {env} {vu} {saved} {loading} h none' (visited pod pods keys l k _ s) =
    let v = visits env vu (pod ∷ pods) keys loading.1 in
    let w = visits-IsVisited env vu (pod ∷ pods) keys loading.1 in
    subst (λ r. IsTold r loading.0 vu saved) (sym l)
      (subst (λ ks. IsTold (ok (pod ∷ pods)) ks vu saved) (sym k)
        (subst IsJudged (sym s) (IsJudged-of vu v (pod ∷ pods) h none' w)))

-- If no type has two conditions in the object, none has in the one that a pass saves. If the pods
-- cannot be listed or there are none, PodUnavailable is saved as True, and if there are some and the
-- keys cannot be loaded, KeysMissing is; in these cases the saved status names no unsealed pod and
-- Ready is unchanged. Otherwise both are gone, also when none of the pods is ready or can be reached,
-- and Ready is True or False as the saved status names an unsealed pod or none.
pub reconcile_vault_unsealer-verdict :
    (env : Env) (vu : VaultUnsealer) (t : Trace)
    → HasTable vu
    → (saved : VaultUnsealer) × (last_saved (reconcile_vault_unsealer env vu t).1 ≡ some saved)
      × HasTable saved
      × IsTold (listed_at env vu t) (loading_at env vu t).0 vu saved
reconcile_vault_unsealer-verdict env vu t h =
    let r = reconcile_vault_unsealer-IsReported env vu t in
    (
      r.saved,
      r.is_last,
      Report-HasTable r.report h,
      as_begun _ _ _ (Report-verdict h refl r.report),
    )
  where
    -- the reset keeps the conditions
    as_begun :
        (listed : Result (List Pod)) (loaded : Result (List Text)) (saved : VaultUnsealer)
        → IsTold listed loaded (begun_at env vu t) saved
        → IsTold listed loaded vu saved
    as_begun (err e) loaded saved d = d
    as_begun (ok []) loaded saved d = d
    as_begun (ok (pod ∷ pods)) (err e) saved d = d
    as_begun (ok (pod ∷ pods)) (ok keys) saved d = d
