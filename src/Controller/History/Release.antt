-- ===== src/Controller/History/Release.antt =====
-- What the run that lets go of a deleted object leaves of its metrics.
use vault_unsealer.Prelude.{
  ◌≡◌, refl, sym, subst, ◌⊎◌, inl, inr, true, List, [], ◌∷◌, ◌++◌, All, Memᴰ, arith, some,
  Bool-cases,
}
use vault_unsealer.Text.{Text, text_eq, text_eq_iff}
use vault_unsealer.Result.{ok}
use vault_unsealer.Api.{VaultUnsealer, NamespacedName}
use vault_unsealer.Cluster.{
  Env, Call, Trace, ◌>>=◌, Series, get_vault_unsealer, update_status, inc, set, observe, delete,
  reconciliation_total, reconciliation_errors, unseal_attempts, pods_unsealed, pods_checked,
  unseal_keys_loaded, reconciliation_duration, vault_connection_status,
}
use vault_unsealer.Cluster.Owner.{owner, pod_of, key_of}
use vault_unsealer.Controller.Pods.Loop.Cleaned.{WritesOnly}
use vault_unsealer.Controller.Lifecycle.{
  has_finalizer, reconcile, cleanup_metrics, delete_pod_metrics,
}
use vault_unsealer.Controller.Lifecycle.Cleanup.{IsSeriesOf, cleanup_metrics_complete}
use vault_unsealer.Controller.Lifecycle.Progress.{removes}
use vault_unsealer.Controller.History.{Reachable}
use vault_unsealer.Controller.History.Series.{IsAlive, alive_before, alive-IsSourced}

-- The series is of a pod that an earlier status of the object lists as checked, and its last does
-- not.
pub record IsLeftover (vu : VaultUnsealer) (t : Trace) (s : Series) : Type 0 where
  pub old : VaultUnsealer
  pub was_saved : Memᴰ (update_status old) t
  pub same : key_of old ≡ key_of vu
  pub pod : Text
  pub is_pod : pod_of s ≡ some pod
  pub was_checked : Memᴰ pod old.status.pods_checked
  pub is_dropped : ¬ Memᴰ pod vu.status.pods_checked

Memᴰ_or_not : (x : Text) (xs : List Text) → Memᴰ x xs ⊎ (¬ Memᴰ x xs)
Memᴰ_or_not x [] = inr (λ m. elim m [ ])
Memᴰ_or_not x (y ∷ xs) = elim (Memᴰ_or_not x xs) [
  | inl m ↦ inl (Memᴰ.tail m)
  | inr none' ↦ elim (Bool-cases (text_eq x y)) [
    | inl same ↦ inl (Memᴰ.head ((text_eq_iff x y).0 same))
    | inr other ↦
        inr
          (λ m. elim m [ Memᴰ.head e ↦ ground (arith, text_eq_iff x y) | Memᴰ.tail m' ↦ none' m' ])
  ]
]

module _ (vu old : VaultUnsealer) (t : Trace) (m : Memᴰ (update_status old) t) where
  IsLeftover-of :
      (s : Series) (pod : Text)
      → pod_of s ≡ some pod
      → key_of old ≡ key_of vu
      → Memᴰ pod old.status.pods_checked
      → (Memᴰ pod vu.status.pods_checked → IsSeriesOf vu.name vu.namespace vu.status.pods_checked s)
      → IsSeriesOf vu.name vu.namespace vu.status.pods_checked s ⊎ IsLeftover vu t s
  IsLeftover-of s pod is same was own = elim (Memᴰ_or_not pod vu.status.pods_checked) [
    | inl m' ↦ inl (own m')
    | inr gone ↦ inr (record {
      old = old;
      was_saved = m;
      same = same;
      pod = pod;
      is_pod = is;
      was_checked = was;
      is_dropped = gone;
    })
  ]

  own_or_IsLeftover :
      (s : Series)
      → owner s ≡ key_of vu
      → IsSeriesOf old.name old.namespace old.status.pods_checked s
      → IsSeriesOf vu.name vu.namespace vu.status.pods_checked s ⊎ IsLeftover vu t s
  own_or_IsLeftover (reconciliation_total n ns) e h = inl (cc, cc)
  own_or_IsLeftover (reconciliation_errors n ns x) e h = inl (cc, cc, h.2)
  own_or_IsLeftover (pods_unsealed n ns) e h = inl (cc, cc)
  own_or_IsLeftover (pods_checked n ns) e h = inl (cc, cc)
  own_or_IsLeftover (unseal_keys_loaded n ns) e h = inl (cc, cc)
  own_or_IsLeftover (reconciliation_duration n ns) e h = inl (cc, cc)
  own_or_IsLeftover (unseal_attempts n ns pod x) e h =
      IsLeftover-of _ pod refl (cc (e, h.0, h.1)) h.2 (λ m'. (cc, cc, m', h.3))
  own_or_IsLeftover (vault_connection_status n ns pod) e h =
      IsLeftover-of _ pod refl (cc (e, h.0, h.1)) h.2 (λ m'. (cc, cc, m'))

-- The calls of the cleanup do not depend on what was before.
delete_pod_metrics-append :
    (n ns : Text) (pods : List Text) (new t : Trace)
    → (delete_pod_metrics n ns pods (new ++ t)).1 ≡ (delete_pod_metrics n ns pods new).1 ++ t
unfolding delete_pod_metrics ◌>>=◌
delete_pod_metrics-append n ns [] new t = refl
delete_pod_metrics-append n ns (pod ∷ pods) new t = delete_pod_metrics-append n ns pods _ t

cleanup_metrics-append :
    (vu : VaultUnsealer) (t : Trace) → (cleanup_metrics vu t).1 ≡ (cleanup_metrics vu []).1 ++ t
unfolding cleanup_metrics ◌>>=◌
cleanup_metrics-append vu t =
    delete_pod_metrics-append vu.name vu.namespace vu.status.pods_checked _ t

delete_pod_metrics-silent :
    (n ns : Text) (pods : List Text) (new : Trace)
    → All (WritesOnly (λ s. ⊥)) new
    → All (WritesOnly (λ s. ⊥)) (delete_pod_metrics n ns pods new).1
unfolding delete_pod_metrics ◌>>=◌
delete_pod_metrics-silent n ns [] new h = h
delete_pod_metrics-silent n ns (pod ∷ pods) new h =
    delete_pod_metrics-silent n ns pods _ (tt, (tt, (tt, h)))

cleanup_metrics-silent : (vu : VaultUnsealer) → All (WritesOnly (λ s. ⊥)) (cleanup_metrics vu []).1
unfolding cleanup_metrics ◌>>=◌
cleanup_metrics-silent vu =
    delete_pod_metrics-silent vu.name vu.namespace vu.status.pods_checked _
      (tt, (tt, (tt, (tt, (tt, (tt, (tt, (tt, tt))))))))

-- A series that is deleted and not written is not alive.
deleted-IsAlive :
    (s : Series) (new t : Trace)
    → All (WritesOnly (λ s. ⊥)) new
    → Memᴰ (delete s) new
    → ¬ IsAlive s (new ++ t)
deleted-IsAlive s [] t h m alive = elim m [ ]
deleted-IsAlive s (c ∷ new) t h (Memᴰ.head e) alive =
    (subst (λ d. IsAlive s (d ∷ new ++ t)) (sym e) alive).0 refl
deleted-IsAlive s (c ∷ new) t h (Memᴰ.tail m) alive =
    deleted-IsAlive s new t h.1 m (alive_behind c (new ++ t) h.0 alive)
  where
    alive_behind : (c : Call) (u : Trace) → WritesOnly (λ s. ⊥) c → IsAlive s (c ∷ u) → IsAlive s u
    alive_behind (inc r) u w a = absurd w
    alive_behind (set r n) u w a = absurd w
    alive_behind (observe r n) u w a = absurd w
    alive_behind (delete r) u w a = a.1
    alive_behind c u w a = a

-- When the controller lets go of an object that is being deleted, in whatever history it comes to,
-- the registry keeps only such series of that object whose pod an earlier status of the object lists
-- as checked and the last status, by which it cleans up, does not.
pub reconcile-IsLeftover :
    (env : Env) (id : NamespacedName) (t : Trace) (vu : VaultUnsealer)
    → Reachable env t
    → env.get_vault_unsealer t id ≡ ok vu
    → vu.deleting ≡ true
    → has_finalizer env vu ≡ true
    → (s : Series) → owner s ≡ key_of vu
    → IsAlive s (reconcile env id t).1
    → IsLeftover vu t s
reconcile-IsLeftover env id t vu reached found gone owned s own alive =
    let start = get_vault_unsealer id ∷ t in
    let cleaned = (cleanup_metrics vu []).1 in
    let left : IsAlive s (cleaned ++ start) =
      subst (λ u. IsAlive s u) (cleanup_metrics-append vu start)
        (subst (λ u. IsAlive s u) (removes env id t vu found gone owned) alive) in
    elim (alive_before (λ s. ⊥) s cleaned start (cleanup_metrics-silent vu) left) [
      | inl none' ↦ absurd none'
      | inr before ↦
          let (old, m, named) = alive-IsSourced env t reached s before in
          elim (own_or_IsLeftover vu old t m s own named) [
            | inr leftover ↦ leftover
            | inl mine ↦ absurd (
                deleted-IsAlive s cleaned start (cleanup_metrics-silent vu)
                  (cleanup_metrics_complete vu [] s mine) left)
          ]
    ]
