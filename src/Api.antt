-- ===== src/Api.antt =====
-- api/v1alpha1/vaultunsealer_types.go, with the parts of the object's metadata that the operator
-- reads. A nil slice and an empty one are not told apart; times and durations are nanoseconds.
pub mod Scheme
use vault_unsealer.Prelude.{ℕ, ℤ, Bool, Option, List}
use vault_unsealer.Text.{Text}

pub record SecretRef : Type 0 where
  pub name : Text
  pub namespace : Text
  pub key : Text

pub record VaultConnectionSpec : Type 0 where
  pub url : Text
  pub ca_bundle_secret_ref : Option SecretRef
  pub insecure_skip_verify : Bool

pub record ModeSpec : Type 0 where
  pub ha : Bool

pub record VaultUnsealerSpec : Type 0 where
  pub vault : VaultConnectionSpec
  pub unseal_keys_secret_refs : List SecretRef
  pub interval : Option ℤ
  pub vault_label_selector : Text
  pub mode : ModeSpec
  pub key_threshold : ℤ

pub record Condition : Type 0 where
  pub type : Text
  pub status : Text
  pub reason : Text
  pub message : Text

pub record VaultUnsealerStatus : Type 0 where
  pub pods_checked : List Text
  pub unsealed_pods : List Text
  pub conditions : List Condition
  pub last_reconcile_time : Option ℕ

-- `deleting` is `!DeletionTimestamp.IsZero()`.
pub record VaultUnsealer : Type 0 where
  pub name : Text
  pub namespace : Text
  pub generation : ℤ
  pub resource_version : Text
  pub finalizers : List Text
  pub deleting : Bool
  pub spec : VaultUnsealerSpec
  pub status : VaultUnsealerStatus

-- types.NamespacedName
pub record NamespacedName : Type 0 where
  pub namespace : Text
  pub name : Text
