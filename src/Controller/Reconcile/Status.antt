-- ===== src/Controller/Reconcile/Status.antt =====
-- What the conditions of the saved status tell.
use vault_unsealer.Prelude.{
  ◌≡◌, sym, ap, subst, ◌∙◌, inl, inr, List, ◌∷◌, none, some, Option, arith, Bool-cases, ltb,
  if◌then◌else◌,
}
use vault_unsealer.Text.{Text, text_eq}
use vault_unsealer.Result.{Error, Result}
use vault_unsealer.Api.{Condition, VaultUnsealer}
use vault_unsealer.Cluster.{Env, Trace, Pod}
use vault_unsealer.Controller.Conditions.{
  set_condition, clear_condition, ready, keys_missing, pod_unavailable, status_true, status_false,
}
use vault_unsealer.Controller.Conditions.Laws.{
  find_condition, IsTable, find_condition-put, find_condition-without, put-IsTable, without-IsTable,
}
use vault_unsealer.Controller.Pods.{Visit}
use vault_unsealer.Controller.Pods.Loop.{IsVisited}
use vault_unsealer.Controller.Reconcile.{judge, completed}
use vault_unsealer.Controller.Reconcile.Report.{
  Report, listing_failed, no_pods_found, keys_failed, visited, visits, visits-IsVisited,
}

-- The status of a condition of the object, if it has one of that type.
abbrev pub status_in : Option Condition → Option Text
status_in none = none
status_in (some c) = some c.status

abbrev pub condition_status : Text → VaultUnsealer → Option Text
condition_status type vu = status_in (find_condition type vu.status.conditions)

abbrev pub HasTable : VaultUnsealer → Type 0
HasTable vu = IsTable vu.status.conditions

set_condition-HasTable :
    (type status reason message : Text) (vu : VaultUnsealer)
    → HasTable vu
    → HasTable (set_condition type status reason message vu)
unfolding set_condition
set_condition-HasTable type status reason message vu h = put-IsTable _ vu.status.conditions h

clear_condition-HasTable :
    (type : Text) (vu : VaultUnsealer) → HasTable vu → HasTable (clear_condition type vu)
unfolding clear_condition
clear_condition-HasTable type vu h = without-IsTable type vu.status.conditions h

judge-HasTable : (v : Visit) → HasTable v.vu → HasTable (judge v)
unfolding judge
judge-HasTable v h = elim (Bool-cases (ltb 0 v.unsealed_count)) [
  | inl y ↦ rw y (set_condition-HasTable ready _ _ _ v.vu h)
  | inr n ↦ rw n (set_condition-HasTable ready _ _ _ v.vu h)
]

completed-HasTable : (v : Visit) → HasTable v.vu → HasTable (completed v)
completed-HasTable v h =
    clear_condition-HasTable pod_unavailable _
      (clear_condition-HasTable keys_missing (judge v) (judge-HasTable v h))

pub visited_conditions :
    (vu : VaultUnsealer) (v : Visit) (pods : List Pod)
    → IsVisited (record { vu = vu; unsealed_count = 0 }) v pods
    → v.vu.status.conditions ≡ vu.status.conditions
visited_conditions vu v pods h = ap (λ (x : VaultUnsealer). x.status.conditions) h.vu

-- A pass keeps at most one condition of each type.
pub Report-HasTable :
    {env : Env} {vu saved : VaultUnsealer} {listed : Result (List Pod)}
    {loading : Result (List Text) × Trace} {told error : Option Error}
    → Report env vu listed loading told error saved
    → HasTable vu
    → HasTable saved
Report-HasTable {vu} (listing_failed e _ _ s) h =
    subst HasTable (sym s) (set_condition-HasTable _ _ _ _ vu h)
Report-HasTable {vu} (no_pods_found _ _ s) h =
    subst HasTable (sym s) (set_condition-HasTable _ _ _ _ vu h)
Report-HasTable {vu} (keys_failed _ _ e _ _ _ s) h =
    subst HasTable (sym s) (set_condition-HasTable _ _ _ _ vu h)
Report-HasTable {env} {vu} {loading} (visited pod pods keys _ _ _ s) h =
    let v = visits env vu (pod ∷ pods) keys loading.1 in
    let w = visits-IsVisited env vu (pod ∷ pods) keys loading.1 in
    subst HasTable (sym s)
      (completed-HasTable v (subst IsTable (sym (visited_conditions vu v (pod ∷ pods) w)) h))

-- The condition of a type behind set_condition and clear_condition.
pub condition_set :
    (at type status reason message : Text) (vu : VaultUnsealer)
    → condition_status at (set_condition type status reason message vu)
      ≡ (if text_eq type at then some status else condition_status at vu)
unfolding set_condition
condition_set at type status reason message vu = ground (
  arith,
  find_condition-put at
      (record { type = type; status = status; reason = reason; message = message })
      vu.status.conditions,
)

condition-clear :
    (at type : Text) (vu : VaultUnsealer)
    → HasTable vu
    → condition_status at (clear_condition type vu)
      ≡ (if text_eq type at then none else condition_status at vu)
unfolding clear_condition
condition-clear at type vu h = ground (arith, find_condition-without at type vu.status.conditions h)

-- The Ready condition tells whether a pod was counted.
condition-judge :
    (v : Visit)
    → condition_status ready (judge v)
      ≡ some (if ltb 0 v.unsealed_count then status_true else status_false)
unfolding judge text_eq
condition-judge v = elim (Bool-cases (ltb 0 v.unsealed_count)) [
  | inl y ↦ rw y (condition_set ready ready _ _ _ v.vu)
  | inr n ↦ rw n (condition_set ready ready _ _ _ v.vu)
]

pub completed_conditions :
    (v : Visit)
    → HasTable v.vu
    → (condition_status keys_missing (completed v) ≡ none)
      × (condition_status pod_unavailable (completed v) ≡ none)
      × (condition_status ready (completed v)
          ≡ some (if ltb 0 v.unsealed_count then status_true else status_false))
unfolding text_eq
completed_conditions v h =
    let judged = judge-HasTable v h in
    let cleared = clear_condition-HasTable keys_missing (judge v) judged in
    let without_keys = clear_condition keys_missing (judge v) in
    (
      condition-clear keys_missing pod_unavailable without_keys cleared
          ∙ condition-clear keys_missing keys_missing (judge v) judged,
      condition-clear pod_unavailable pod_unavailable without_keys cleared,
      condition-clear ready pod_unavailable without_keys cleared
          ∙ condition-clear ready keys_missing (judge v) judged
          ∙ condition-judge v,
    )
