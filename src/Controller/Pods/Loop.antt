-- ===== src/Controller/Pods/Loop.antt =====
-- What the loop over the pods leaves in the status, whatever the pods and their Vaults answer.
pub mod Attested
pub mod Calls
pub mod Cleaned
pub mod Guarantees
pub mod Opened
pub mod Ready
pub mod Settled
pub mod Steady
pub mod Rounds
use vault_unsealer.Prelude.{
  ℕ, suc, ◌+◌, ◌≡◌, refl, sym, ap, ap₂, subst, ◌∙◌, ◌⊎◌, inl, inr, Bool, true, false, not, List, [],
  ◌∷◌, ◌++◌, append-nil, append_assoc, length, arith, Bool-cases, if◌then◌else◌,
}
use vault_unsealer.Text.{Text}
use vault_unsealer.Result.{Result, ok, err}
use vault_unsealer.Api.{VaultUnsealer}
use vault_unsealer.Cluster.{Env, Trace, pure, ◌>>=◌, Pod}
use vault_unsealer.Controller.Pods.{
  Visit, checked, unsealed, is_pod_ready, after_check, proceed, check_and_unseal_pod, visit_pod,
  visit_pods,
}
use vault_unsealer.Controller.Pods.Loop.Rounds.{Visits, done, passed, opened, ended}

-- The object with more names in its two lists.
abbrev pub with_pods : VaultUnsealer → List Text → List Text → VaultUnsealer
with_pods vu cs us = record vu {
  status = record (vu.status) {
    pods_checked = vu.status.pods_checked ++ cs;
    unsealed_pods = vu.status.unsealed_pods ++ us;
  };
}

-- The loop has made the visits `cs` and unsealed `us`.
pub record IsVisited (v w : Visit) (pods : List Pod) : Type 0 where
  pub cs : List Text
  pub us : List Text
  pub visits : Visits v.vu.spec.mode.ha pods cs us
  pub vu : w.vu ≡ with_pods v.vu cs us
  pub count : w.unsealed_count ≡ v.unsealed_count + length us

module _ (pod : Pod) (v w : Visit) (pods : List Pod) where
  -- One name more in front of each list, or of the first alone.
  regroup_checked :
      (us : List Text) (cs : List Text)
      → with_pods (checked pod v).vu cs us ≡ with_pods v.vu (pod.name ∷ cs) us
  regroup_checked us cs =
      ap
        (λ l. record (v.vu) {
          status = record (v.vu.status) {
            pods_checked = l;
            unsealed_pods = v.vu.status.unsealed_pods ++ us;
          };
        })
        (append_assoc v.vu.status.pods_checked (pod.name ∷ []) cs)

  regroup_unsealed :
      (us : List Text) (cs : List Text)
      → with_pods (unsealed pod (checked pod v)).vu cs us
        ≡ with_pods v.vu (pod.name ∷ cs) (pod.name ∷ us)
  regroup_unsealed us cs =
      ap₂
        (λ l m. record (v.vu) {
          status = record (v.vu.status) { pods_checked = l; unsealed_pods = m };
        })
        (append_assoc v.vu.status.pods_checked (pod.name ∷ []) cs)
        (append_assoc v.vu.status.unsealed_pods (pod.name ∷ []) us)

  IsVisited-passed : IsVisited (checked pod v) w pods → IsVisited v w (pod ∷ pods)
  IsVisited-passed h = record {
    cs = pod.name ∷ h.cs;
    us = h.us;
    visits = passed h.visits;
    vu = h.vu ∙ regroup_checked h.us h.cs;
    count = h.count;
  }

  IsVisited-opened :
      is_pod_ready pod ≡ true
      → v.vu.spec.mode.ha ≡ true
      → IsVisited (unsealed pod (checked pod v)) w pods
      → IsVisited v w (pod ∷ pods)
  IsVisited-opened y on h = record {
    cs = pod.name ∷ h.cs;
    us = pod.name ∷ h.us;
    visits = opened y on h.visits;
    vu = h.vu ∙ regroup_unsealed h.us h.cs;
    count = let more = h.count in omega arith;
  }

  IsVisited-ended :
      is_pod_ready pod ≡ true
      → v.vu.spec.mode.ha ≡ false
      → w ≡ unsealed pod (checked pod v)
      → IsVisited v w (pod ∷ pods)
  IsVisited-ended y off e = record {
    cs = pod.name ∷ [];
    us = pod.name ∷ [];
    visits = ended y off;
    vu = ap (λ (x : Visit). x.vu) e;
    count = ap (λ (x : Visit). x.unsealed_count) e;
  }

module _ (env : Env) (keys : List Text) where
  after_check_cases :
      (pod : Pod) (v : Visit) (r : Result Bool) (t : Trace)
      → ((after_check env pod v r t).0 ≡ (v, true))
        ⊎ ((after_check env pod v r t).0 ≡ (unsealed pod v, v.vu.spec.mode.ha))
  unfolding after_check ◌>>=◌
  after_check_cases pod v (err e) t = inl refl
  after_check_cases pod v (ok true) t = inl refl
  after_check_cases pod v (ok false) t = inr refl

  -- A pod is passed, or it is ready and counted as unsealed; the latter ends the loop without HA.
  visit_pod_cases :
      (pod : Pod) (v : Visit) (t : Trace)
      → ((visit_pod env keys pod v t).0 ≡ (checked pod v, true))
        ⊎ ((is_pod_ready pod ≡ true)
            × ((visit_pod env keys pod v t).0 ≡ (unsealed pod (checked pod v), v.vu.spec.mode.ha)))
  unfolding visit_pod ◌>>=◌
  visit_pod_cases pod v t = elim (Bool-cases (is_pod_ready pod)) [
    | inr n ↦ inl (rw (n, visit_pod))
    | inl y ↦
        let (r, t') = check_and_unseal_pod env pod (checked pod v).vu keys t in
        elim (after_check_cases pod (checked pod v) r t') [
          | inl e ↦ inl (rw y e)
          | inr e ↦ inr (y, rw y e)
        ]
  ]

  pub visit_pods-IsVisited :
      (pods : List Pod) (v : Visit) (t : Trace) → IsVisited v (visit_pods env keys pods v t).0 pods
  unfolding visit_pods ◌>>=◌
  visit_pods-IsVisited [] v t = record {
    cs = [];
    us = [];
    visits = done;
    vu = rw (append-nil v.vu.status.pods_checked, append-nil v.vu.status.unsealed_pods);
    count = omega arith;
  }
  visit_pods-IsVisited (pod ∷ pods) v t =
      let t' = (visit_pod env keys pod v t).1 in
      let Next = λ (r : Visit × Bool).
        IsVisited v (proceed r (visit_pods env keys pods) t').0 (pod ∷ pods) in
      let here = unsealed pod (checked pod v) in
      elim (visit_pod_cases pod v t) [
        | inl e ↦ subst Next (sym e) (
            unfold proceed in
            IsVisited-passed pod v _ pods (visit_pods-IsVisited pods (checked pod v) t'))
        | inr (y, e) ↦ elim (Bool-cases v.vu.spec.mode.ha) [
          | inl on ↦ subst Next (sym (e ∙ ap (λ b. (here, b)) on)) (
              unfold proceed in
              IsVisited-opened pod v _ pods y on (visit_pods-IsVisited pods here t'))
          | inr off ↦
              subst Next (sym (e ∙ ap (λ b. (here, b)) off))
                (unfold proceed pure in IsVisited-ended pod v here pods y off refl)
        ]
      ]
