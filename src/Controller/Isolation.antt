-- ===== src/Controller/Isolation.antt =====
-- The calls that a run of Reconcile may make for its object, and for no other.
use vault_unsealer.Prelude.{◌≡◌, ◌⊎◌, some, Memᴰ}
use vault_unsealer.Text.{Text}
use vault_unsealer.Api.{SecretRef, VaultUnsealer}
use vault_unsealer.Cluster.{
  Call, ApiConfig, get_vault_unsealer, update, update_status, list_pods, get_secret, new_api_client,
  read_seal_status, write_unseal, now, inc, set, observe, delete,
}
use vault_unsealer.Cluster.Owner.{owner, key_of}
use vault_unsealer.Secrets.Loader.{namespaced_name}
use vault_unsealer.Controller.Connection.{vault_url}

-- The specification refers to the secret.
abbrev pub Refers : VaultUnsealer → SecretRef → Type 0
Refers vu ref =
    Memᴰ ref vu.spec.unseal_keys_secret_refs ⊎ (vu.spec.vault.ca_bundle_secret_ref ≡ some ref)

-- The address is made of an IP and the URL of the specification.
abbrev pub IsVaultOf : VaultUnsealer → ApiConfig → Type 0
IsVaultOf vu client = (ip : Text) × (client.address ≡ vault_url ip vu.spec.vault.url)

abbrev pub IsOwn : VaultUnsealer → Call → Type 0
IsOwn vu (get_vault_unsealer id) = id ≡ key_of vu
IsOwn vu (update new) = key_of new ≡ key_of vu
IsOwn vu (update_status new) = key_of new ≡ key_of vu
IsOwn vu (list_pods namespace selector) =
    (namespace ≡ vu.namespace) × (selector ≡ vu.spec.vault_label_selector)
IsOwn vu (get_secret id) =
    (ref : SecretRef) × Refers vu ref × (id ≡ namespaced_name vu.namespace ref)
IsOwn vu (new_api_client client) = IsVaultOf vu client
IsOwn vu (read_seal_status client) = IsVaultOf vu client
IsOwn vu (write_unseal client key) = IsVaultOf vu client
IsOwn vu now = Unit
IsOwn vu (inc s) = owner s ≡ key_of vu
IsOwn vu (set s n) = owner s ≡ key_of vu
IsOwn vu (observe s n) = owner s ≡ key_of vu
IsOwn vu (delete s) = owner s ≡ key_of vu
