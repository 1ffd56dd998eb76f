-- ===== src/Webhook/References.antt =====
-- validateSecretRef and validateUnsealKeysSecretRefs of internal/webhook/vaultunsealer_webhook.go.
-- Appending the errors of a part only when there are some is appending them.
pub mod Duplicates
pub mod Laws
use vault_unsealer.Prelude.{
  ℕ, suc, Bool, true, false, not, List, [], ◌∷◌, ◌++◌, Option, none, some, if◌then◌else◌, ltb,
  length,
}
use vault_unsealer.Text.{Text, codes, text_eq, is_empty}
use vault_unsealer.Text.Decimal.{decimal}
use vault_unsealer.Api.{SecretRef}
use vault_unsealer.Webhook.Fields.{
  FieldPath, at_child, at_index, child, text, FieldError, required, invalid, too_long, duplicate,
}
use vault_unsealer.Webhook.Names.{is_valid_kubernetes_name}

-- the error, if the test holds
unfoldable pub error_if : Bool → FieldError → List FieldError
error_if true e = e ∷ []
error_if false e = []

unfoldable pub validate_namespace : Text → FieldPath → List FieldError
unfolding error_if
validate_namespace [] path = []
validate_namespace (a ∷ s) path =
    error_if (ltb 63 (length (a ∷ s))) (too_long (at_child path (codes "namespace")) (a ∷ s) 63)
    ++ error_if (not (is_valid_kubernetes_name (a ∷ s))) (
        invalid (at_child path (codes "namespace")) (text (a ∷ s))
          (codes "invalid Kubernetes namespace name"))

unfoldable pub validate_secret_ref : SecretRef → FieldPath → List FieldError
unfolding validate_namespace error_if
validate_secret_ref ref path =
    error_if (is_empty ref.name)
      (required (at_child path (codes "name")) (codes "secret name is required"))
    ++ (error_if (is_empty ref.key)
          (required (at_child path (codes "key")) (codes "secret key is required"))
        ++ (validate_namespace ref.namespace path
            ++ (error_if (ltb 253 (length ref.name))
                  (too_long (at_child path (codes "name")) ref.name 253)
                ++ error_if (not (is_valid_kubernetes_name ref.name)) (
                    invalid (at_child path (codes "name")) (text ref.name)
                      (codes "invalid Kubernetes secret name")))))

unfoldable pub validate_each : FieldPath → ℕ → List SecretRef → List FieldError
validate_each path i [] = []
validate_each path i (ref ∷ refs) =
    validate_secret_ref ref (at_index path i) ++ validate_each path (suc i) refs

-- fmt.Sprintf("%s/%s/%s", …)
unfoldable pub reference_key : SecretRef → Text
reference_key ref = ref.namespace ++ b'/' ∷ (ref.name ++ b'/' ∷ ref.key)

-- `seen`, the latest index first
unfoldable pub previous_index : Text → List (Text × ℕ) → Option ℕ
previous_index key [] = none
previous_index key ((k, i) ∷ seen) = if text_eq k key then some i else previous_index key seen

unfoldable pub duplicate_error : FieldPath → Option ℕ → List FieldError
duplicate_error path none = []
duplicate_error path (some previous) =
    duplicate path
      (codes "duplicate secret reference (same as index " ++ (decimal previous ++ codes ")"))
    ∷ []

unfoldable pub check_duplicates : FieldPath → ℕ → List (Text × ℕ) → List SecretRef → List FieldError
unfolding duplicate_error previous_index reference_key
check_duplicates path i seen [] = []
check_duplicates path i seen (ref ∷ refs) =
    duplicate_error (at_index path i) (previous_index (reference_key ref) seen)
    ++ check_duplicates path (suc i) ((reference_key ref, i) ∷ seen) refs

abbrev pub refs_path : FieldPath
refs_path = child (codes "spec") ∷ child (codes "unsealKeysSecretRefs") ∷ []

unfoldable pub validate_unseal_keys_secret_refs : List SecretRef → List FieldError
unfolding validate_each check_duplicates
validate_unseal_keys_secret_refs [] =
    required refs_path (codes "at least one unseal keys secret reference is required") ∷ []
validate_unseal_keys_secret_refs (ref ∷ refs) =
    validate_each refs_path 0 (ref ∷ refs) ++ check_duplicates refs_path 0 [] (ref ∷ refs)
