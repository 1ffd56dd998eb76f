-- ===== src/Metrics.antt =====
-- internal/metrics/metrics.go: the collectors, the one that a series belongs to, and the registry.
-- The buckets of the histogram are left out.
use vault_unsealer.Prelude.{List, [], ◌∷◌, Option}
use vault_unsealer.Text.{Text, codes}
use vault_unsealer.Cluster.{
  Series, reconciliation_total, reconciliation_errors, unseal_attempts, pods_unsealed, pods_checked,
  unseal_keys_loaded, reconciliation_duration, vault_connection_status, lookup,
}

pub data Kind : Type 0 where
  counter : Kind
  gauge : Kind
  histogram : Kind

-- a CounterVec, a GaugeVec or a HistogramVec
pub record Collector : Type 0 where
  pub kind : Kind
  pub name : Text
  pub help : Text
  pub labels : List Text

abbrev pub reconciliation_total_collector : Collector
reconciliation_total_collector = record {
  kind = counter;
  name = codes "vault_unsealer_reconciliation_total";
  help = codes "Total number of reconciliation attempts";
  labels = codes "vaultunsealer" ∷ codes "namespace" ∷ [];
}

abbrev pub reconciliation_errors_collector : Collector
reconciliation_errors_collector = record {
  kind = counter;
  name = codes "vault_unsealer_reconciliation_errors_total";
  help = codes "Total number of reconciliation errors";
  labels = codes "vaultunsealer" ∷ codes "namespace" ∷ codes "error_type" ∷ [];
}

abbrev pub unseal_attempts_collector : Collector
unseal_attempts_collector = record {
  kind = counter;
  name = codes "vault_unsealer_unseal_attempts_total";
  help = codes "Total number of unseal attempts";
  labels = codes "vaultunsealer" ∷ codes "namespace" ∷ codes "pod" ∷ codes "status" ∷ [];
}

abbrev pub pods_unsealed_collector : Collector
pods_unsealed_collector = record {
  kind = gauge;
  name = codes "vault_unsealer_pods_unsealed";
  help = codes "Number of pods successfully unsealed";
  labels = codes "vaultunsealer" ∷ codes "namespace" ∷ [];
}

abbrev pub pods_checked_collector : Collector
pods_checked_collector = record {
  kind = gauge;
  name = codes "vault_unsealer_pods_checked";
  help = codes "Number of pods checked for sealing status";
  labels = codes "vaultunsealer" ∷ codes "namespace" ∷ [];
}

abbrev pub unseal_keys_loaded_collector : Collector
unseal_keys_loaded_collector = record {
  kind = gauge;
  name = codes "vault_unsealer_unseal_keys_loaded";
  help = codes "Number of unseal keys loaded from secrets";
  labels = codes "vaultunsealer" ∷ codes "namespace" ∷ [];
}

abbrev pub reconciliation_duration_collector : Collector
reconciliation_duration_collector = record {
  kind = histogram;
  name = codes "vault_unsealer_reconciliation_duration_seconds";
  help = codes "Time taken to complete reconciliation";
  labels = codes "vaultunsealer" ∷ codes "namespace" ∷ [];
}

abbrev pub vault_connection_status_collector : Collector
vault_connection_status_collector = record {
  kind = gauge;
  name = codes "vault_unsealer_vault_connection_status";
  help = codes "Vault connection status (1=healthy, 0=unhealthy)";
  labels = codes "vaultunsealer" ∷ codes "namespace" ∷ codes "pod" ∷ [];
}

-- the arguments of MustRegister
abbrev pub registered : List Collector
registered =
    reconciliation_total_collector ∷ reconciliation_errors_collector ∷ unseal_attempts_collector
    ∷ pods_unsealed_collector ∷ pods_checked_collector ∷ unseal_keys_loaded_collector
    ∷ reconciliation_duration_collector ∷ vault_connection_status_collector ∷ []

-- The collector of a series, whose labels get the series' values in order.
abbrev pub collector_of : Series → Collector
collector_of (reconciliation_total n ns) = reconciliation_total_collector
collector_of (reconciliation_errors n ns e) = reconciliation_errors_collector
collector_of (unseal_attempts n ns pod s) = unseal_attempts_collector
collector_of (pods_unsealed n ns) = pods_unsealed_collector
collector_of (pods_checked n ns) = pods_checked_collector
collector_of (unseal_keys_loaded n ns) = unseal_keys_loaded_collector
collector_of (reconciliation_duration n ns) = reconciliation_duration_collector
collector_of (vault_connection_status n ns pod) = vault_connection_status_collector

abbrev pub values_of : Series → List Text
values_of (reconciliation_total n ns) = n ∷ ns ∷ []
values_of (reconciliation_errors n ns e) = n ∷ ns ∷ e ∷ []
values_of (unseal_attempts n ns pod s) = n ∷ ns ∷ pod ∷ s ∷ []
values_of (pods_unsealed n ns) = n ∷ ns ∷ []
values_of (pods_checked n ns) = n ∷ ns ∷ []
values_of (unseal_keys_loaded n ns) = n ∷ ns ∷ []
values_of (reconciliation_duration n ns) = n ∷ ns ∷ []
values_of (vault_connection_status n ns pod) = n ∷ ns ∷ pod ∷ []

abbrev pairs : List Text → List Text → List (Text × Text)
pairs [] values = []
pairs (l ∷ labels) [] = []
pairs (l ∷ labels) (v ∷ values) = (l, v) ∷ pairs labels values

-- The value of a label.
unfoldable pub label : Text → Series → Option Text
unfolding lookup
label name s = lookup name (pairs (collector_of s).labels (values_of s))
