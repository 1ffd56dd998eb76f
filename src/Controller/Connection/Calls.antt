-- ===== src/Controller/Connection/Calls.antt =====
-- Which calls the making of a client adds to the history, and to which address it is made.
use vault_unsealer.Prelude.{◌≡◌, refl, Option, none, some, arith, Bool}
use vault_unsealer.Text.{Text}
use vault_unsealer.Result.{ok}
use vault_unsealer.Api.{SecretRef, VaultUnsealer}
use vault_unsealer.Cluster.{
  Env, Call, Trace, ◌>>=◌, Pod, ApiConfig, TlsConfig, get_secret, new_api_client,
}
use vault_unsealer.Cluster.Emits.{Emits, Emits-bind, Emits-pure, Emits-perform}
use vault_unsealer.Cluster.Counts.{AtMost, AtMost-pure, AtMost-perform, AtMost-bind_of}
use vault_unsealer.Secrets.Loader.{namespaced_name}
use vault_unsealer.Vault.{new_client}
use vault_unsealer.Controller.Connection.{
  vault_url, read_tls, get_tls_config, tls_by, choose_tls, create_vault_client,
}

address-new_client :
    (env : Env) (address : Text) (tls : Option TlsConfig) (t : Trace) (c : ApiConfig)
    → (new_client env address tls t).0 ≡ ok c
    → c.address ≡ address
unfolding new_client ◌>>=◌
address-new_client env address tls t c e = ground arith

module _ (env : Env) (pod : Pod) (vu : VaultUnsealer) where
  -- If a client is made for a pod, its address is the one that is computed from the pod's IP and the
  -- URL of the specification.
  pub address-create_vault_client :
      (t : Trace) (c : ApiConfig)
      → (create_vault_client env pod vu t).0 ≡ ok c
      → c.address ≡ vault_url pod.pod_ip vu.spec.vault.url
  unfolding create_vault_client ◌>>=◌
  address-create_vault_client t c e =
      address-new_client env (vault_url pod.pod_ip vu.spec.vault.url) (choose_tls env vu t).0
        (choose_tls env vu t).1 c e

  module _ (P : Call → Type 0)
      (reads : (ref : SecretRef)
        → vu.spec.vault.ca_bundle_secret_ref ≡ some ref
        → P (get_secret (namespaced_name vu.namespace ref)))
      (makes : (config : ApiConfig)
        → config.address ≡ vault_url pod.pod_ip vu.spec.vault.url
        → P (new_api_client config)) where
    read_tls-Emits :
        (found : Option SecretRef)
        → vu.spec.vault.ca_bundle_secret_ref ≡ found
        → Emits P (read_tls env vu found)
    unfolding read_tls namespaced_name
    read_tls-Emits none e = Emits-pure _
    read_tls-Emits (some ref) e =
        Emits-bind _ _ (Emits-perform _ _ (reads ref e)) (λ s. Emits-pure _)

    tls_by-Emits : (found : Option SecretRef) → Emits P (tls_by env vu found)
    unfolding tls_by get_tls_config
    tls_by-Emits none = Emits-pure _
    tls_by-Emits (some ref) = Emits-bind _ _ (read_tls-Emits _ refl) (λ tls. Emits-pure _)

    -- At most the CA secret is read, and one client is made.
    pub create_vault_client-Emits : Emits P (create_vault_client env pod vu)
    unfolding create_vault_client choose_tls new_client
    create_vault_client-Emits =
        Emits-bind _ _ (tls_by-Emits vu.spec.vault.ca_bundle_secret_ref)
          λ tls. Emits-bind _ _ (Emits-perform _ _ (makes _ refl)) (λ f. Emits-pure _)

module _ (env : Env) {p : Call → Bool} where
  read_tls-AtMost :
      (vu : VaultUnsealer) (found : Option SecretRef) → AtMost p 1 (read_tls env vu found)
  unfolding read_tls
  read_tls-AtMost vu none = AtMost-pure 1 _
  read_tls-AtMost vu (some ref) =
      AtMost-bind_of 1 0 _ _ (omega arith) (AtMost-perform _ _) (λ t. AtMost-pure 0 _)

  tls_by-AtMost : (vu : VaultUnsealer) (found : Option SecretRef) → AtMost p 1 (tls_by env vu found)
  unfolding tls_by get_tls_config
  tls_by-AtMost vu none = AtMost-pure 1 _
  tls_by-AtMost vu (some ref) =
      AtMost-bind_of 1 0 _ _ (omega arith) (read_tls-AtMost vu _) (λ t. AtMost-pure 0 _)

  -- At most two calls: one for the CA secret, one for the client.
  pub create_vault_client-AtMost :
      (pod : Pod) (vu : VaultUnsealer) → AtMost p 2 (create_vault_client env pod vu)
  unfolding create_vault_client choose_tls new_client
  create_vault_client-AtMost pod vu =
      AtMost-bind_of 1 1 _ _ (omega arith) (tls_by-AtMost vu vu.spec.vault.ca_bundle_secret_ref)
        λ t. AtMost-bind_of 1 0 _ _ (omega arith) (AtMost-perform _ _) (λ u. AtMost-pure 0 _)
