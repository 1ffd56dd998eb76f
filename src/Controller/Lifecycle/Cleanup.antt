-- ===== src/Controller/Lifecycle/Cleanup.antt =====
-- cleanupMetrics against the metrics that a pass writes: every series of the last pass is deleted.
use vault_unsealer.Prelude.{◌≡◌, ◌⊎◌, inl, inr, List, [], ◌∷◌, Memᴰ}
use vault_unsealer.Text.{Text, codes}
use vault_unsealer.Cluster.{
  Call, Series, Trace, ◌>>=◌, delete, reconciliation_total, reconciliation_errors, unseal_attempts,
  pods_unsealed, pods_checked, unseal_keys_loaded, reconciliation_duration, vault_connection_status,
}
use vault_unsealer.Api.{VaultUnsealer}
use vault_unsealer.Controller.Lifecycle.{delete_pod_metrics, cleanup_metrics}

-- A series that a pass over the object can write, when it visits the pods `checked`.
abbrev pub IsSeriesOf : (name namespace : Text) → List Text → Series → Type 0
IsSeriesOf n ns checked (reconciliation_total a b) = (a ≡ n) × (b ≡ ns)
IsSeriesOf n ns checked (reconciliation_errors a b e) =
    (a ≡ n)
    × (b ≡ ns)
    × ((e ≡ codes "pod_discovery") ⊎ (e ≡ codes "keys_loading") ⊎ (e ≡ codes "status_update"))
IsSeriesOf n ns checked (unseal_attempts a b pod s) =
    (a ≡ n) × (b ≡ ns) × Memᴰ pod checked × ((s ≡ codes "success") ⊎ (s ≡ codes "failed"))
IsSeriesOf n ns checked (pods_unsealed a b) = (a ≡ n) × (b ≡ ns)
IsSeriesOf n ns checked (pods_checked a b) = (a ≡ n) × (b ≡ ns)
IsSeriesOf n ns checked (unseal_keys_loaded a b) = (a ≡ n) × (b ≡ ns)
IsSeriesOf n ns checked (reconciliation_duration a b) = (a ≡ n) × (b ≡ ns)
IsSeriesOf n ns checked (vault_connection_status a b pod) = (a ≡ n) × (b ≡ ns) × Memᴰ pod checked

-- the history behind the loop over the pods keeps what was there
Memᴰ-delete_pod_metrics :
    (n ns : Text) (pods : List Text) (t : Trace) (c : Call)
    → Memᴰ c t
    → Memᴰ c (delete_pod_metrics n ns pods t).1
unfolding delete_pod_metrics ◌>>=◌
Memᴰ-delete_pod_metrics n ns [] t c m = m
Memᴰ-delete_pod_metrics n ns (pod ∷ pods) t c m =
    Memᴰ-delete_pod_metrics n ns pods _ c (Memᴰ.tail (Memᴰ.tail (Memᴰ.tail m)))

-- Every pod of the list loses its three series.
deletes_pod :
    (n ns : Text) (pods : List Text) (t : Trace) (pod : Text) (s : Series)
    → Memᴰ pod pods
    → (s ≡ unseal_attempts n ns pod (codes "success"))
      ⊎ (s ≡ unseal_attempts n ns pod (codes "failed"))
      ⊎ (s ≡ vault_connection_status n ns pod)
    → Memᴰ (delete s) (delete_pod_metrics n ns pods t).1
unfolding delete_pod_metrics ◌>>=◌
deletes_pod n ns (p ∷ pods) t pod s (Memᴰ.head e) which =
    Memᴰ-delete_pod_metrics n ns pods _ (delete s) (here which)
  where
    here :
        (s ≡ unseal_attempts n ns pod (codes "success"))
          ⊎ (s ≡ unseal_attempts n ns pod (codes "failed"))
          ⊎ (s ≡ vault_connection_status n ns pod)
        → Memᴰ (delete s) (
            delete (vault_connection_status n ns p)
            ∷ delete (unseal_attempts n ns p (codes "failed"))
            ∷ delete (unseal_attempts n ns p (codes "success"))
            ∷ t)
    here (inl x) = Memᴰ.tail (Memᴰ.tail (Memᴰ.head (cc)))
    here (inr (inl x)) = Memᴰ.tail (Memᴰ.head (cc))
    here (inr (inr x)) = Memᴰ.head (cc)
deletes_pod n ns (p ∷ pods) t pod s (Memᴰ.tail m) which = deletes_pod n ns pods _ pod s m which
deletes_pod n ns [] t pod s m which = elim m [ ]

-- the deletions in front of the loop, last first
abbrev before_pods : Text → Text → Trace → Trace
before_pods n ns t =
    delete (reconciliation_duration n ns)
    ∷ delete (unseal_keys_loaded n ns)
    ∷ delete (pods_checked n ns)
    ∷ delete (pods_unsealed n ns)
    ∷ delete (reconciliation_errors n ns (codes "status_update"))
    ∷ delete (reconciliation_errors n ns (codes "keys_loading"))
    ∷ delete (reconciliation_errors n ns (codes "pod_discovery"))
    ∷ delete (reconciliation_total n ns)
    ∷ t

module _ (vu : VaultUnsealer) (t : Trace) where
  early : (c : Call) → Memᴰ c (before_pods vu.name vu.namespace t) → Memᴰ c (cleanup_metrics vu t).1
  unfolding cleanup_metrics ◌>>=◌
  early c m = Memᴰ-delete_pod_metrics vu.name vu.namespace vu.status.pods_checked _ c m

  late :
      (pod : Text) (s : Series)
      → Memᴰ pod vu.status.pods_checked
      → (s ≡ unseal_attempts vu.name vu.namespace pod (codes "success"))
        ⊎ (s ≡ unseal_attempts vu.name vu.namespace pod (codes "failed"))
        ⊎ (s ≡ vault_connection_status vu.name vu.namespace pod)
      → Memᴰ (delete s) (cleanup_metrics vu t).1
  unfolding cleanup_metrics ◌>>=◌
  late pod s m which = deletes_pod vu.name vu.namespace vu.status.pods_checked _ pod s m which

  -- Behind the cleanup, the history holds the deletion of every series with the object's name and
  -- namespace: those of the object, with the three types of error of the controller, and those of
  -- each pod that its status lists as checked, with both outcomes of an attempt.
  pub cleanup_metrics_complete :
      (s : Series)
      → IsSeriesOf vu.name vu.namespace vu.status.pods_checked s
      → Memᴰ (delete s) (cleanup_metrics vu t).1
  cleanup_metrics_complete (reconciliation_duration a b) h = early _ (Memᴰ.head (cc (h.0, h.1)))
  cleanup_metrics_complete (unseal_keys_loaded a b) h =
      early _ (Memᴰ.tail (Memᴰ.head (cc (h.0, h.1))))
  cleanup_metrics_complete (pods_checked a b) h =
      early _ (Memᴰ.tail (Memᴰ.tail (Memᴰ.head (cc (h.0, h.1)))))
  cleanup_metrics_complete (pods_unsealed a b) h =
      early _ (Memᴰ.tail (Memᴰ.tail (Memᴰ.tail (Memᴰ.head (cc (h.0, h.1))))))
  cleanup_metrics_complete (reconciliation_errors a b e) h = elim h.2 [
    | inl x ↦ early _ (
        Memᴰ.tail (
          Memᴰ.tail (Memᴰ.tail (Memᴰ.tail (Memᴰ.tail (Memᴰ.tail (Memᴰ.head (cc (h.0, h.1, x)))))))))
    | inr (inl x) ↦
        early _
          (Memᴰ.tail (Memᴰ.tail (Memᴰ.tail (Memᴰ.tail (Memᴰ.tail (Memᴰ.head (cc (h.0, h.1, x))))))))
    | inr (inr x) ↦
        early _ (Memᴰ.tail (Memᴰ.tail (Memᴰ.tail (Memᴰ.tail (Memᴰ.head (cc (h.0, h.1, x)))))))
  ]
  cleanup_metrics_complete (reconciliation_total a b) h = early _ (
      Memᴰ.tail (
        Memᴰ.tail
          (Memᴰ.tail (Memᴰ.tail (Memᴰ.tail (Memᴰ.tail (Memᴰ.tail (Memᴰ.head (cc (h.0, h.1))))))))))
  cleanup_metrics_complete (unseal_attempts a b pod s) h =
      late pod _ h.2
        (elim h.3 [ inl x ↦ inl (cc (h.0, h.1, x)) | inr x ↦ inr (inl (cc (h.0, h.1, x))) ])
  cleanup_metrics_complete (vault_connection_status a b pod) h =
      late pod _ h.2 (inr (inr (cc (h.0, h.1))))
