-- ===== src/Controller/Pods/Loop/Guarantees.antt =====
-- What one run of the loop guarantees about the two lists that it leaves in the status.
use vault_unsealer.Prelude.{◌+◌, ◌≤◌, ◌≡◌, ◌⊎◌, true, false, List, [], ◌∷◌, ◌++◌, length, Memᴰ, ap}
use vault_unsealer.Text.{Text}
use vault_unsealer.Cluster.{Env, Trace, Pod}
use vault_unsealer.Controller.Pods.{Visit, is_pod_ready, visit_pods}
use vault_unsealer.Controller.Pods.Loop.{visit_pods-IsVisited}
use vault_unsealer.Controller.Pods.Loop.Rounds.{
  names, Visits-eq-names, length-Visits, Visits-IsPrefix, Visits-stop, Visits-ends, Visits-ready,
}

-- The loop from `v` to `w` over `pods` appends `cs` to the pods that were checked and `us` to those
-- that are unsealed.
pub record IsRun (v w : Visit) (pods : List Pod) : Type 0 where
  pub cs : List Text
  pub us : List Text
  pub checked : w.vu.status.pods_checked ≡ v.vu.status.pods_checked ++ cs
  pub unsealed : w.vu.status.unsealed_pods ≡ v.vu.status.unsealed_pods ++ us
  pub count : w.unsealed_count ≡ v.unsealed_count + length us
  pub in_order : (rest : List Text) × (names pods ≡ cs ++ rest)
  pub with_ha : v.vu.spec.mode.ha ≡ true → cs ≡ names pods
  pub without_ha : v.vu.spec.mode.ha ≡ false → length us ≤ 1
  pub stops : (cs ≡ names pods) ⊎ ((v.vu.spec.mode.ha ≡ false) × (length us ≡ 1))
  pub ends :
      v.vu.spec.mode.ha ≡ false
      → ((us ≡ []) × (cs ≡ names pods))
        ⊎ ((earlier : List Text) × (name : Text) × (us ≡ name ∷ []) × (cs ≡ earlier ++ name ∷ []))
  pub ready :
      (name : Text)
      → Memᴰ name us
      → (pod : Pod) × Memᴰ pod pods × (is_pod_ready pod ≡ true) × (name ≡ pod.name) × Memᴰ name cs

-- Whatever the pods and their Vaults answer: the pods are checked in order, each one with HA; without
-- it either no name is added as unsealed and each pod is checked, or one is and it is the last that is
-- checked. A name is added as unsealed only if it is that of a ready pod of the list and was checked,
-- and the count is the number of the names that were added.
pub visit_pods-IsRun :
    (env : Env) (keys : List Text) (pods : List Pod) (v : Visit) (t : Trace)
    → IsRun v (visit_pods env keys pods v t).0 pods
visit_pods-IsRun env keys pods v t =
    let h = visit_pods-IsVisited env keys pods v t in
    record {
      cs = h.cs;
      us = h.us;
      checked = ap (λ vu. vu.status.pods_checked) h.vu;
      unsealed = ap (λ vu. vu.status.unsealed_pods) h.vu;
      count = h.count;
      in_order = Visits-IsPrefix h.visits;
      with_ha = λ ha. Visits-eq-names ha h.visits;
      without_ha = λ ha. length-Visits ha h.visits;
      stops = Visits-stop h.visits;
      ends = λ ha. Visits-ends ha h.visits;
      ready = λ name m. Visits-ready h.visits m;
    }
