-- ===== src/Webhook/Spec.antt =====
-- The validation of a whole object, and the three admission handlers, of
-- internal/webhook/vaultunsealer_webhook.go. The client and the logger of the validator have no part
-- in its answers. `url.Parse` is a parameter, of which the scheme and the host are used.
pub mod Laws
pub mod Warnings
use vault_unsealer.Prelude.{
  ℕ, zero, ◌*◌, ℤ, pos, negsuc, ltb_ℤ, suc, Bool, true, false, not, ◌&&◌, List, [], ◌∷◌, ◌++◌,
  Option, none, some, length,
}
use vault_unsealer.Text.{Text, codes, text_eq, is_empty}
use vault_unsealer.Text.Decimal.{decimal}
use vault_unsealer.Result.{Error, Result, ok, err}
use vault_unsealer.Api.{SecretRef, VaultConnectionSpec, ModeSpec, VaultUnsealerSpec, VaultUnsealer}
use vault_unsealer.Webhook.Fields.{
  FieldPath, at_child, child, text, int, duration, FieldError, required, invalid,
}
use vault_unsealer.Webhook.Names.{is_valid_label_selector}
use vault_unsealer.Webhook.References.{
  error_if, validate_secret_ref, validate_unseal_keys_secret_refs,
}

pub record ParsedUrl : Type 0 where
  pub scheme : Text
  pub host : Text

-- %d of a Go `int`
unfoldable pub print_int : ℤ → Text
print_int (pos n) = decimal n
print_int (negsuc n) = b'-' ∷ decimal (suc n)

abbrev pub spec_path : Text → FieldPath
spec_path name = child (codes "spec") ∷ child name ∷ []

abbrev pub url_path : FieldPath
url_path = at_child (spec_path (codes "vault")) (codes "url")

abbrev pub ca_bundle_path : FieldPath
ca_bundle_path = at_child (spec_path (codes "vault")) (codes "caBundleSecretRef")

unfoldable pub validate_parsed_url : Text → Result ParsedUrl → List FieldError
unfolding error_if
validate_parsed_url url (err e) =
    invalid url_path (text url) (codes "invalid URL format: " ++ e.message) ∷ []
validate_parsed_url url (ok parsed) =
    error_if
      (not (text_eq parsed.scheme (codes "http")) && not (text_eq parsed.scheme (codes "https")))
      (invalid url_path (text url) (codes "URL scheme must be http or https"))
    ++ error_if (is_empty parsed.host) (invalid url_path (text url) (codes "URL must include host"))

unfoldable pub validate_url : (Text → Result ParsedUrl) → Text → List FieldError
unfolding validate_parsed_url
validate_url parse [] = required url_path (codes "Vault URL is required") ∷ []
validate_url parse (a ∷ s) = validate_parsed_url (a ∷ s) (parse (a ∷ s))

unfoldable pub validate_ca_bundle : Option SecretRef → List FieldError
unfolding validate_secret_ref
validate_ca_bundle none = []
validate_ca_bundle (some ref) = validate_secret_ref ref ca_bundle_path

unfoldable pub validate_vault_connection :
    (Text → Result ParsedUrl) → VaultConnectionSpec → List FieldError
unfolding validate_url validate_ca_bundle
validate_vault_connection parse vault =
    validate_url parse vault.url ++ validate_ca_bundle vault.ca_bundle_secret_ref

unfoldable pub validate_vault_label_selector : Text → List FieldError
unfolding error_if
validate_vault_label_selector [] =
    required (spec_path (codes "vaultLabelSelector")) (codes "vault label selector is required")
    ∷ []
validate_vault_label_selector (a ∷ s) = error_if (not (is_valid_label_selector (a ∷ s))) (
    invalid (spec_path (codes "vaultLabelSelector")) (text (a ∷ s))
      (codes "invalid label selector format"))

-- the warning, if the test holds
abbrev pub warning_if : Bool → Text → List Text
warning_if true warning = warning ∷ []
warning_if false warning = []

-- keyThreshold == 0
abbrev pub is_zero : ℤ → Bool
is_zero (pos zero) = true
is_zero _ = false

unfoldable pub validate_key_threshold : ℤ → ℕ → List FieldError × List Text
unfolding error_if print_int
validate_key_threshold key_threshold count = (
  error_if (ltb_ℤ key_threshold (pos 0)) (
      invalid (spec_path (codes "keyThreshold")) (int key_threshold)
        (codes "keyThreshold must be non-negative")),
  warning_if (is_zero key_threshold)
        (codes "keyThreshold is 0, all available keys will be used for unsealing")
      ++ warning_if (ltb_ℤ (pos (count * 10)) key_threshold) (
          codes "keyThreshold ("
          ++ (print_int key_threshold
              ++ (codes ") is much higher than the number of secret references ("
                  ++ (decimal count ++ codes ")")))),
)

-- The guard of validateVaultUnsealer: a threshold is looked at only when there are references.
unfoldable pub validate_threshold_of : ℤ → List SecretRef → List FieldError × List Text
unfolding validate_key_threshold
validate_threshold_of key_threshold [] = ([], [])
validate_threshold_of key_threshold (ref ∷ refs) =
    validate_key_threshold key_threshold (length (ref ∷ refs))

-- What it logs of short and long intervals is no part of the answer.
unfoldable pub validate_interval : ℤ → List FieldError
unfolding error_if
validate_interval interval =
    error_if (not (ltb_ℤ (pos 0) interval)) (
      invalid (spec_path (codes "interval")) (duration interval)
        (codes "interval must be positive"))

unfoldable pub validate_interval_of : Option ℤ → List FieldError
unfolding validate_interval
validate_interval_of none = []
validate_interval_of (some interval) = validate_interval interval

unfoldable pub validate_mode : ModeSpec → List FieldError × List Text
validate_mode mode = (
  [],
  warning_if (not mode.ha)
      (codes "HA mode is disabled, unsealing will stop after the first successful pod"),
)

-- admission.Warnings, and the errors that ToAggregate makes one of
pub record Admission : Type 0 where
  pub warnings : List Text
  pub refusal : Option (List FieldError)

unfoldable pub to_aggregate : List FieldError → Option (List FieldError)
to_aggregate [] = none
to_aggregate (e ∷ errors) = some (e ∷ errors)

unfoldable pub validate_spec :
    (Text → Result ParsedUrl) → VaultUnsealerSpec → List FieldError × List Text
unfolding validate_vault_connection validate_unseal_keys_secret_refs validate_vault_label_selector
    validate_threshold_of validate_interval_of validate_mode
validate_spec parse spec =
    let (threshold_errors, threshold_warnings) =
      validate_threshold_of spec.key_threshold spec.unseal_keys_secret_refs in
    let (mode_errors, mode_warnings) = validate_mode spec.mode in
    (
      validate_vault_connection parse spec.vault
          ++ (validate_unseal_keys_secret_refs spec.unseal_keys_secret_refs
              ++ (validate_vault_label_selector spec.vault_label_selector
                  ++ (threshold_errors ++ (validate_interval_of spec.interval ++ mode_errors)))),
      threshold_warnings ++ mode_warnings,
    )

unfoldable pub validate_vault_unsealer : (Text → Result ParsedUrl) → VaultUnsealer → Admission
unfolding validate_spec to_aggregate
validate_vault_unsealer parse vu =
    let (errors, warnings) = validate_spec parse vu.spec in
    record { warnings = warnings; refusal = to_aggregate errors }

unfoldable pub validate_create : (Text → Result ParsedUrl) → VaultUnsealer → Admission
validate_create parse obj = validate_vault_unsealer parse obj

unfoldable pub validate_update : (Text → Result ParsedUrl) → (old new : VaultUnsealer) → Admission
validate_update parse old new = validate_vault_unsealer parse new

unfoldable pub validate_delete : VaultUnsealer → Admission
validate_delete obj = record { warnings = []; refusal = none }
