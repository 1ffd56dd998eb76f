-- ===== src/Logging.antt =====
-- internal/logging/logger.go. A logger of package logr is an argument: what it adds to its lines.
pub mod Laws
use vault_unsealer.Prelude.{
  zero, suc, ℤ, pos, negsuc, ltb_ℤ, Bool, not, List, [], ◌∷◌, if◌then◌else◌,
}
use vault_unsealer.Text.{Text, codes, is_empty}
use vault_unsealer.Api.{SecretRef, VaultUnsealer}
use vault_unsealer.Result.{Error}
use vault_unsealer.Cluster.{Pod}

pub data Value : Type 0 where
  text : Text → Value
  number : ℤ → Value
  boolean : Bool → Value

abbrev pub Fields : Type 0
Fields = List (Text × Value)

module _ {Logger : Type 0} (with_values : Logger → Fields → Logger) where
  abbrev pub with_vault_unsealer : Logger → VaultUnsealer → Logger
  with_vault_unsealer logger vu = with_values logger (
      (codes "vaultunsealer", text vu.name)
      ∷ (codes "namespace", text vu.namespace)
      ∷ (codes "generation", number vu.generation)
      ∷ (codes "resourceVersion", text vu.resource_version)
      ∷ [])

  abbrev pub with_pod : Logger → Pod → Logger
  with_pod logger pod = with_values logger (
      (codes "pod", text pod.name)
      ∷ (codes "namespace", text pod.namespace)
      ∷ (codes "podIP", text pod.pod_ip)
      ∷ (codes "phase", text pod.phase)
      ∷ [])

  abbrev pub with_secret : Logger → SecretRef → (namespace : Text) → Logger
  with_secret logger secret_ref namespace =
      let secret_namespace =
        if is_empty secret_ref.namespace then namespace else secret_ref.namespace in
      with_values logger (
        (codes "secret", text secret_ref.name)
        ∷ (codes "secretNamespace", text secret_namespace)
        ∷ (codes "secretKey", text secret_ref.key)
        ∷ [])

  abbrev pub with_error : Logger → Error → (operation : Text) → Logger
  with_error logger e operation =
      with_values logger
        ((codes "error", text e.message) ∷ (codes "operation", text operation) ∷ [])

  abbrev pub with_reconciliation : Logger → (reconcile_id : Text) → Logger
  with_reconciliation logger reconcile_id =
      with_values logger ((codes "reconcileID", text reconcile_id) ∷ [])

  abbrev pub with_unseal_attempt : Logger → (pod_name : Text) → (key_index total_keys : ℤ) → Logger
  with_unseal_attempt logger pod_name key_index total_keys = with_values logger (
      (codes "pod", text pod_name)
      ∷ (codes "keyIndex", number key_index)
      ∷ (codes "totalKeys", number total_keys)
      ∷ [])

  abbrev pub with_vault_connection : Logger → (vault_url : Text) → (tls_enabled : Bool) → Logger
  with_vault_connection logger vault_url tls_enabled =
      with_values logger
        ((codes "vaultURL", text vault_url) ∷ (codes "tlsEnabled", boolean tls_enabled) ∷ [])

  abbrev pub with_metrics : Logger → (metric_name operation : Text) → Logger
  with_metrics logger metric_name operation =
      with_values logger
        ((codes "metricName", text metric_name) ∷ (codes "metricsOperation", text operation) ∷ [])

-- LogLevel is an int; these are its constants.
abbrev pub debug : ℤ
debug = pos 0

abbrev pub info : ℤ
info = pos 1

abbrev pub warning : ℤ
warning = pos 2

abbrev pub error : ℤ
error = pos 3

-- l.ShouldLog(configured)
abbrev pub should_log : ℤ → (configured : ℤ) → Bool
should_log l configured = not (ltb_ℤ l configured)

-- l.String()
unfoldable pub level_name : ℤ → Text
level_name (pos zero) = codes "debug"
level_name (pos (suc zero)) = codes "info"
level_name (pos (suc (suc zero))) = codes "warning"
level_name (pos (suc (suc (suc zero)))) = codes "error"
level_name l = codes "unknown"
