-- ===== src/Controller/Reconcile/Labels.antt =====
-- The labels of the series that a pass writes.
use vault_unsealer.Prelude.{◌≡◌, refl, ap, ◌⊎◌, inl, inr, List, none, some, length, Memᴰ}
use vault_unsealer.Text.{Text, codes, text_eq}
use vault_unsealer.Api.{VaultUnsealer}
use vault_unsealer.Metrics.{collector_of, values_of, registered, label}
use vault_unsealer.Cluster.{
  Env, Trace, Series, reconciliation_total, reconciliation_errors, unseal_attempts, pods_unsealed,
  pods_checked, unseal_keys_loaded, reconciliation_duration, vault_connection_status,
}
use vault_unsealer.Cluster.Grew.{Grew}
use vault_unsealer.Controller.Pods.Loop.Cleaned.{WritesOnly, All-WritesOnly}
use vault_unsealer.Controller.Lifecycle.Cleanup.{IsSeriesOf}
use vault_unsealer.Controller.Reconcile.{reconcile_vault_unsealer}
use vault_unsealer.Controller.Reconcile.Report.{last_saved}
use vault_unsealer.Controller.Reconcile.Metrics.{reconcile_vault_unsealer-IsRecorded}

-- The series is of a registered collector, has a value for each of its labels, names the object, and
-- if it names a pod, then one of `pods`.
pub record IsLabelled (name namespace : Text) (pods : List Text) (s : Series) : Type 0 where
  pub is_registered : Memᴰ (collector_of s) registered
  pub complete : length (values_of s) ≡ length (collector_of s).labels
  pub object : label (codes "vaultunsealer") s ≡ some name
  pub space : label (codes "namespace") s ≡ some namespace
  pub of_pod :
      (label (codes "pod") s ≡ none)
      ⊎ ((pod : Text) × (label (codes "pod") s ≡ some pod) × Memᴰ pod pods)

IsLabelled-of_IsSeriesOf :
    (n ns : Text) (pods : List Text) (s : Series) → IsSeriesOf n ns pods s → IsLabelled n ns pods s
unfolding label text_eq
IsLabelled-of_IsSeriesOf n ns pods (reconciliation_total a b) h = record {
  is_registered = Memᴰ.head refl;
  complete = refl;
  object = ap some h.0;
  space = ap some h.1;
  of_pod = inl refl;
}
IsLabelled-of_IsSeriesOf n ns pods (reconciliation_errors a b e) h = record {
  is_registered = Memᴰ.tail (Memᴰ.head refl);
  complete = refl;
  object = ap some h.0;
  space = ap some h.1;
  of_pod = inl refl;
}
IsLabelled-of_IsSeriesOf n ns pods (unseal_attempts a b pod r) h = record {
  is_registered = Memᴰ.tail (Memᴰ.tail (Memᴰ.head refl));
  complete = refl;
  object = ap some h.0;
  space = ap some h.1;
  of_pod = inr (pod, refl, h.2);
}
IsLabelled-of_IsSeriesOf n ns pods (pods_unsealed a b) h = record {
  is_registered = Memᴰ.tail (Memᴰ.tail (Memᴰ.tail (Memᴰ.head refl)));
  complete = refl;
  object = ap some h.0;
  space = ap some h.1;
  of_pod = inl refl;
}
IsLabelled-of_IsSeriesOf n ns pods (pods_checked a b) h = record {
  is_registered = Memᴰ.tail (Memᴰ.tail (Memᴰ.tail (Memᴰ.tail (Memᴰ.head refl))));
  complete = refl;
  object = ap some h.0;
  space = ap some h.1;
  of_pod = inl refl;
}
IsLabelled-of_IsSeriesOf n ns pods (unseal_keys_loaded a b) h = record {
  is_registered = Memᴰ.tail (Memᴰ.tail (Memᴰ.tail (Memᴰ.tail (Memᴰ.tail (Memᴰ.head refl)))));
  complete = refl;
  object = ap some h.0;
  space = ap some h.1;
  of_pod = inl refl;
}
IsLabelled-of_IsSeriesOf n ns pods (reconciliation_duration a b) h = record {
  is_registered =
      Memᴰ.tail (Memᴰ.tail (Memᴰ.tail (Memᴰ.tail (Memᴰ.tail (Memᴰ.tail (Memᴰ.head refl))))));
  complete = refl;
  object = ap some h.0;
  space = ap some h.1;
  of_pod = inl refl;
}
IsLabelled-of_IsSeriesOf n ns pods (vault_connection_status a b pod) h = record {
  is_registered =
      Memᴰ.tail
        (Memᴰ.tail (Memᴰ.tail (Memᴰ.tail (Memᴰ.tail (Memᴰ.tail (Memᴰ.tail (Memᴰ.head refl)))))));
  complete = refl;
  object = ap some h.0;
  space = ap some h.1;
  of_pod = inr (pod, refl, h.2);
}

-- A pass writes only series of registered collectors, with a value for every label: the label
-- vaultunsealer is the object's name, namespace its namespace, and pod, where there is one, a pod that
-- the saved status lists as checked.
pub reconcile_vault_unsealer-IsLabelled :
    (env : Env) (vu : VaultUnsealer) (t : Trace)
    → (saved : VaultUnsealer) × (last_saved (reconcile_vault_unsealer env vu t).1 ≡ some saved)
      × Grew
          (WritesOnly (IsLabelled vu.name vu.namespace saved.status.pods_checked))
          t
          (reconcile_vault_unsealer env vu t).1
reconcile_vault_unsealer-IsLabelled env vu t =
    let body = reconcile_vault_unsealer-IsRecorded env vu t in
    let (new, e, all) = body.grew in
    (
      body.saved,
      body.is_last,
      (new, e, All-WritesOnly (IsLabelled-of_IsSeriesOf vu.name vu.namespace _) new all),
    )
