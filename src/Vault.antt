-- ===== src/Vault.antt =====
-- internal/vault/client.go: a client for one Vault server. Closing a response's body, which is only
-- logged when it fails, is left out. The body of an unseal request is the JSON object {"key": key};
-- json.Marshal cannot fail on a map of strings, so the branch for its error is not taken.
use vault_unsealer.Prelude.{Option, none, some}
use vault_unsealer.Text.{Text, codes}
use vault_unsealer.Result.{Error, Result, ok, err, wrap, wrap_result}
use vault_unsealer.Cluster.{
  Env, Prog, pure, perform, ◌>>=◌, TlsConfig, Transport, absent, http, foreign, ApiConfig,
  SealStatus, UnsealResponse, new_api_client, read_seal_status, write_unseal,
}

-- The transport that carries the TLS settings; one that is no *http.Transport stays as it is.
unfoldable pub with_tls : Option TlsConfig → Transport → Transport
with_tls none transport = transport
with_tls (some tls) absent = http (some tls)
with_tls (some tls) (http old) = http (some tls)
with_tls (some tls) foreign = foreign

module _ (env : Env) where
  abbrev config_for : Text → Option TlsConfig → ApiConfig
  config_for address tls = record {
    address = address;
    transport = with_tls tls env.default_config.transport;
  }

  abbrev pub created : ApiConfig → Option Error → Result ApiConfig
  created config none = ok config
  created config (some e) = err (wrap (codes "failed to create Vault client: ") e)

  -- The client is its configuration.
  unfoldable pub new_client : Text → Option TlsConfig → Prog (Result ApiConfig)
  unfolding with_tls
  new_client address tls = do
    let config = config_for address tls
    failure ← perform (new_api_client config) (λ t. env.new_api_client t config)
    pure (created config failure)

  abbrev seal_status_of : Result Text → Result SealStatus
  seal_status_of (err e) = err (wrap (codes "failed to get seal status: ") e)
  seal_status_of (ok body) =
      wrap_result (codes "failed to decode seal status: ") (env.decode_seal_status body)

  unfoldable pub get_seal_status : ApiConfig → Prog (Result SealStatus)
  get_seal_status client = do
    body ← perform (read_seal_status client) (λ t. env.read_seal_status t client)
    pure (seal_status_of body)

  abbrev response_of : Result Text → Result UnsealResponse
  response_of (err e) = err (wrap (codes "failed to unseal: ") e)
  response_of (ok body) =
      wrap_result (codes "failed to decode unseal response: ") (env.decode_unseal_response body)

  unfoldable pub unseal : ApiConfig → Text → Prog (Result UnsealResponse)
  unseal client key = do
    body ← perform (write_unseal client key) (λ t. env.write_unseal t client key)
    pure (response_of body)
