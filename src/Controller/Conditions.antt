-- ===== src/Controller/Conditions.antt =====
-- setCondition and clearCondition of internal/controller/vaultunsealer_controller.go, on the list of
-- conditions in the status, and the constants of conditions.
pub mod Laws
use vault_unsealer.Prelude.{List, [], ◌∷◌, if◌then◌else◌}
use vault_unsealer.Text.{Text, codes, text_eq}
use vault_unsealer.Api.{Condition, VaultUnsealerStatus, VaultUnsealer}

abbrev pub ready : Text
ready = codes "Ready"

abbrev pub keys_missing : Text
keys_missing = codes "KeysMissing"

abbrev pub vault_api_failure : Text
vault_api_failure = codes "VaultAPIFailure"

abbrev pub pod_unavailable : Text
pod_unavailable = codes "PodUnavailable"

abbrev pub status_true : Text
status_true = codes "True"

abbrev pub status_false : Text
status_false = codes "False"

abbrev pub reason_reconcile_success : Text
reason_reconcile_success = codes "ReconcileSuccess"

abbrev pub reason_keys_missing : Text
reason_keys_missing = codes "KeysMissing"

abbrev pub reason_pod_not_ready : Text
reason_pod_not_ready = codes "PodNotReady"

abbrev pub reason_unseal_failed : Text
reason_unseal_failed = codes "UnsealFailed"

-- the loop of setCondition, with the append behind it
unfoldable pub put : Condition → List Condition → List Condition
put condition [] = condition ∷ []
put condition (existing ∷ conditions) =
    if text_eq existing.type condition.type
    then condition ∷ conditions
    else existing ∷ put condition conditions

-- the loop of clearCondition
unfoldable pub without : Text → List Condition → List Condition
without type [] = []
without type (condition ∷ conditions) =
    if text_eq condition.type type then conditions else condition ∷ without type conditions

abbrev pub with_conditions : VaultUnsealer → List Condition → VaultUnsealer
with_conditions vu conditions = record vu {
  status = record (vu.status) { conditions = conditions };
}

unfoldable pub set_condition : Text → Text → Text → Text → VaultUnsealer → VaultUnsealer
set_condition type status reason message vu = with_conditions vu (
    put (record { type = type; status = status; reason = reason; message = message })
      vu.status.conditions)

unfoldable pub clear_condition : Text → VaultUnsealer → VaultUnsealer
clear_condition type vu = with_conditions vu (without type vu.status.conditions)
