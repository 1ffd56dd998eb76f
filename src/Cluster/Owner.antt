-- ===== src/Cluster/Owner.antt =====
-- Which object a series is about, and which pod.
use vault_unsealer.Prelude.{Option, none, some}
use vault_unsealer.Text.{Text}
use vault_unsealer.Api.{VaultUnsealer, NamespacedName}
use vault_unsealer.Cluster.{
  Series, reconciliation_total, reconciliation_errors, unseal_attempts, pods_unsealed, pods_checked,
  unseal_keys_loaded, reconciliation_duration, vault_connection_status,
}

-- The object of a series, and its pod.
abbrev pub owner : Series → NamespacedName
owner (reconciliation_total n ns) = record { namespace = ns; name = n }
owner (reconciliation_errors n ns e) = record { namespace = ns; name = n }
owner (unseal_attempts n ns pod s) = record { namespace = ns; name = n }
owner (pods_unsealed n ns) = record { namespace = ns; name = n }
owner (pods_checked n ns) = record { namespace = ns; name = n }
owner (unseal_keys_loaded n ns) = record { namespace = ns; name = n }
owner (reconciliation_duration n ns) = record { namespace = ns; name = n }
owner (vault_connection_status n ns pod) = record { namespace = ns; name = n }

abbrev pub pod_of : Series → Option Text
pod_of (unseal_attempts n ns pod s) = some pod
pod_of (vault_connection_status n ns pod) = some pod
pod_of s = none

abbrev pub key_of : VaultUnsealer → NamespacedName
key_of vu = record { namespace = vu.namespace; name = vu.name }
