-- ===== src/Controller/Connection.antt =====
-- createVaultClient and getTLSConfig of internal/controller/vaultunsealer_controller.go: the address
-- and the TLS settings with which a pod's Vault is called.
pub mod Calls
pub mod Laws
use vault_unsealer.Prelude.{Bool, true, false, Option, none, some, ◌++◌, if◌then◌else◌}
use vault_unsealer.Text.{Text, codes, is_empty, has_prefix}
use vault_unsealer.Text.Replace.{replace_once}
use vault_unsealer.Result.{Result, ok, err, new_error}
use vault_unsealer.Api.{SecretRef, VaultConnectionSpec, VaultUnsealer, NamespacedName}
use vault_unsealer.Cluster.{
  Env, Prog, pure, perform, ◌>>=◌, Pod, SecretData, lookup, TlsConfig, skip_verify, root_cas,
  ApiConfig, get_secret,
}
use vault_unsealer.Vault.{new_client}

-- the two replacements and the fallback
unfoldable pub vault_url : Text → Text → Text
unfolding replace_once has_prefix
vault_url pod_ip url =
    let once = replace_once (codes "vault.vault.svc") pod_ip url in
    let twice = replace_once (codes "vault") pod_ip once in
    if has_prefix (codes "http") twice then twice else codes "http://" ++ (pod_ip ++ codes ":8200")

module _ (env : Env) where
  pool_of : Option Text → SecretRef → Result (Option TlsConfig)
  pool_of none ref =
      err (new_error (codes "key " ++ (ref.key ++ codes " not found in CA bundle secret")))
  pool_of (some ca_data) ref =
      if env.append_certs_from_pem ca_data
      then ok (some (root_cas ca_data))
      else err (new_error (codes "failed to parse CA certificate"))

  tls_of : SecretRef → Result SecretData → Result (Option TlsConfig)
  tls_of ref (err e) = err e
  tls_of ref (ok found) = pool_of (lookup ref.key found) ref

  read_tls : VaultUnsealer → Option SecretRef → Prog (Result (Option TlsConfig))
  read_tls vu none = pure (ok none)
  read_tls vu (some ref) = do
    let namespace = if is_empty ref.namespace then vu.namespace else ref.namespace
    let id = let it : NamespacedName = record { namespace = namespace; name = ref.name } in it
    secret ← perform (get_secret id) (λ t. env.get_secret t id)
    pure (tls_of ref secret)

  unfoldable pub get_tls_config : VaultUnsealer → Prog (Result (Option TlsConfig))
  unfolding read_tls tls_of pool_of lookup
  get_tls_config vu = read_tls vu vu.spec.vault.ca_bundle_secret_ref

  -- `tlsConfig, _ = …`: an error leaves no settings
  dropping_error : Result (Option TlsConfig) → Option TlsConfig
  dropping_error (ok tls) = tls
  dropping_error (err e) = none

  tls_by : VaultUnsealer → Option SecretRef → Prog (Option TlsConfig)
  tls_by vu (some ref) = do tls ← get_tls_config vu; pure (dropping_error tls)
  tls_by vu none = pure (if vu.spec.vault.insecure_skip_verify then some skip_verify else none)

  unfoldable pub choose_tls : VaultUnsealer → Prog (Option TlsConfig)
  unfolding tls_by dropping_error get_tls_config
  choose_tls vu = tls_by vu vu.spec.vault.ca_bundle_secret_ref

  unfoldable pub create_vault_client : Pod → VaultUnsealer → Prog (Result ApiConfig)
  unfolding choose_tls vault_url
  create_vault_client pod vu = do
    tls ← choose_tls vu
    new_client env (vault_url pod.pod_ip vu.spec.vault.url) tls
