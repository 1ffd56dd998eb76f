-- ===== src/Controller/Pods/Loop/Cleaned.antt =====
-- The series that the loop over the pods writes, against those that the cleanup deletes.
use mathlib.Core.List.Memᴰ
use vault_unsealer.Prelude.{
  ◌≡◌, refl, sym, ap, subst, ◌∙◌, inl, inr, Bool, true, false, not, List, [], ◌∷◌, ◌++◌,
  append_assoc, All, All-append, Memᴰ, arith,
}
use vault_unsealer.Text.{Text}
use vault_unsealer.Result.{Result, ok, err}
use vault_unsealer.Api.{VaultUnsealer}
use vault_unsealer.Cluster.{
  Env, Call, Trace, Prog, pure, ◌>>=◌, Pod, Series, inc, set, observe, delete,
}
use vault_unsealer.Cluster.Emits.{Emits, Emits-mono, Emits-bind, Emits-pure, Emits-emit, Emits-if}
use vault_unsealer.Controller.Pods.{
  Visit, checked, is_pod_ready, after_check, proceed, visit_pod, visit_pods,
}
use vault_unsealer.Controller.Pods.Unsealing.{IsPodCall, check_and_unseal_pod-Emits}
use vault_unsealer.Controller.Pods.Loop.{with_pods, visit_pods-IsVisited}
use vault_unsealer.Controller.Pods.Loop.Rounds.{Visits, passed, opened, ended}
use vault_unsealer.Controller.Lifecycle.{cleanup_metrics}
use vault_unsealer.Controller.Lifecycle.Cleanup.{IsSeriesOf, cleanup_metrics_complete}

-- If the call writes a series, then one that satisfies `P`.
abbrev pub WritesOnly : (Series → Type 0) → Call → Type 0
WritesOnly P (inc s) = P s
WritesOnly P (set s n) = P s
WritesOnly P (observe s n) = P s
WritesOnly P c = Unit

pub All-WritesOnly :
    {P Q : Series → Type 0} (f : (s : Series) → P s → Q s) (t : Trace)
    → All (WritesOnly P) t
    → All (WritesOnly Q) t
All-WritesOnly f [] h = tt
All-WritesOnly f (inc s ∷ t) h = (f s h.0, All-WritesOnly f t h.1)
All-WritesOnly f (set s n ∷ t) h = (f s h.0, All-WritesOnly f t h.1)
All-WritesOnly f (observe s n ∷ t) h = (f s h.0, All-WritesOnly f t h.1)
All-WritesOnly f (c ∷ t) h = (tt, All-WritesOnly f t h.1)

Visits-first :
    {ha : Bool} {pod : Pod} {pods : List Pod} {cs us : List Text}
    → Visits ha (pod ∷ pods) cs us
    → Memᴰ pod.name cs
Visits-first (passed v) = Memᴰ.head refl
Visits-first (opened y e v) = Memᴰ.head refl
Visits-first (ended y e) = Memᴰ.head refl

module _ (env : Env) (keys : List Text) (n ns : Text) where
  abbrev pub W : List Text → Call → Type 0
  W names = WritesOnly (IsSeriesOf n ns names)

  abbrev pub IsNamed : Visit → Type 0
  IsNamed v = (v.vu.name ≡ n) × (v.vu.namespace ≡ ns)

  module _ (pod : Pod) (v : Visit) (named : IsNamed v) (names : List Text)
      (m : Memᴰ pod.name names) where
    after_check-writes : (r : Result Bool) → Emits (W names) (after_check env pod (checked pod v) r)
    unfolding after_check
    after_check-writes (err e) =
        Emits-bind _ _ (Emits-emit _ (named.0, named.1, m, inr refl))
          (λ _. Emits-bind _ _ (Emits-emit _ (named.0, named.1, m)) (λ _. Emits-pure _))
    after_check-writes (ok true) =
        Emits-bind _ _ (Emits-emit _ (named.0, named.1, m)) (λ _. Emits-pure _)
    after_check-writes (ok false) =
        Emits-bind _ _ (Emits-emit _ (named.0, named.1, m, inl refl))
          (λ _. Emits-bind _ _ (Emits-emit _ (named.0, named.1, m)) (λ _. Emits-pure _))

    no_series : (address : Text) (c : Call) → IsPodCall v.vu.spec.vault keys address c → W names c
    no_series address (inc s) h = absurd h
    no_series address (set s k) h = absurd h
    no_series address (observe s k) h = absurd h
    no_series address c h = tt

    visit_pod-writes : Emits (W names) (visit_pod env keys pod v)
    unfolding visit_pod
    visit_pod-writes =
        Emits-if (not (is_pod_ready pod)) _ _ (λ _. Emits-pure _)
          λ y.
            Emits-bind _ _
              (Emits-mono (no_series _)
                (check_and_unseal_pod-Emits env (checked pod v).vu pod keys))
              after_check-writes

  IsNamed-visit_pod :
      (pod : Pod) (v : Visit) (t : Trace) → IsNamed v → IsNamed (visit_pod env keys pod v t).0.0
  unfolding visit_pod after_check ◌>>=◌
  IsNamed-visit_pod pod v t h = ground arith

  -- The history grew by calls that write series of the object alone.
  abbrev pub Written : (Visit × Trace) → Trace → Type 0
  Written p t = (new : Trace) × (p.1 ≡ new ++ t) × All (W p.0.vu.status.pods_checked) new

  proceed-Written :
      (r : Visit × Bool) (rest : Visit → Prog Visit) (t : Trace)
      → Written (rest r.0 t) t
      → Written (proceed r rest t) t
  unfolding proceed pure
  proceed-Written (v, true) rest t h = h
  proceed-Written (v, false) rest t h = ([], refl, tt)

  visited-first :
      (pod : Pod) (pods : List Pod) (v : Visit) (t : Trace)
      → Memᴰ pod.name (visit_pods env keys (pod ∷ pods) v t).0.vu.status.pods_checked
  visited-first pod pods v t =
      let h = visit_pods-IsVisited env keys (pod ∷ pods) v t in
      subst (λ (vu : VaultUnsealer). Memᴰ pod.name vu.status.pods_checked) (sym h.vu)
        (Memᴰ.append_right v.vu.status.pods_checked (Visits-first h.visits))

  pub visit_pods-Written :
      (pods : List Pod) (v : Visit) (t : Trace)
      → IsNamed v
      → Written (visit_pods env keys pods v t) t
  unfolding visit_pods ◌>>=◌ pure
  visit_pods-Written [] v t named = ([], refl, tt)
  visit_pods-Written (pod ∷ pods) v t named =
      let (r, t1) = visit_pod env keys pod v t in
      let (first, e, h) = (visit_pod-writes pod v named _ (visited-first pod pods v t)).at t in
      let (second, e', h') =
        proceed-Written r (visit_pods env keys pods) t1
          (visit_pods-Written pods r.0 t1 (IsNamed-visit_pod pod v t named)) in
      (
        second ++ first,
        e' ∙ ap (λ l. second ++ l) e ∙ sym (append_assoc second first t),
        All-append _ second first h' h,
      )

-- Whatever the pods and their Vaults answer, every series that the loop over the pods writes is
-- deleted when the metrics of the object that it leaves are cleaned up, at whatever time.
cleanup_metrics-visit_pods :
    (env : Env) (keys : List Text) (pods : List Pod) (v : Visit) (t later : Trace)
    → (let p = visit_pods env keys pods v t in
        (new : Trace) × (p.1 ≡ new ++ t)
        × All (WritesOnly (λ s. Memᴰ (delete s) (cleanup_metrics p.0.vu later).1)) new)
cleanup_metrics-visit_pods env keys pods v t later =
    let w = (visit_pods env keys pods v t).0 in
    let same = (visit_pods-IsVisited env keys pods v t).vu in
    let (new, e, h) = visit_pods-Written env keys v.vu.name v.vu.namespace pods v t (refl, refl) in
    (
      new,
      e,
      All-WritesOnly (λ s h. cleanup_metrics_complete w.vu later s (of_object w s _ _ same h)) new
          h,
    )
  where
    of_object :
        (w : Visit) (s : Series) (cs us : List Text)
        → w.vu ≡ with_pods v.vu cs us
        → IsSeriesOf v.vu.name v.vu.namespace w.vu.status.pods_checked s
        → IsSeriesOf w.vu.name w.vu.namespace w.vu.status.pods_checked s
    of_object w s cs us same h =
        subst (λ (vu : VaultUnsealer). IsSeriesOf vu.name vu.namespace w.vu.status.pods_checked s)
          (sym same) h
