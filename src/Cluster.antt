-- ===== src/Cluster.antt =====
-- What the operator calls and does not implement: the Kubernetes API through controller-runtime's
-- client, Vault through its HTTP API, the clock, and the metrics registry. A run of the operator is
-- the history of its calls, newest first; the environment answers each call as a function of the
-- history before it, so nothing is assumed of what the cluster or Vault does in between.
pub mod Counts
pub mod Emits
pub mod Grew
pub mod Owner
use vault_unsealer.Prelude.{ℕ, Bool, Option, List, [], ◌∷◌, if◌then◌else◌, none, some}
use vault_unsealer.Text.{Text, text_eq}
use vault_unsealer.Result.{Error, Result}
use vault_unsealer.Api.{VaultUnsealer, NamespacedName}

-- corev1.Pod, the fields that the operator reads
pub record PodCondition : Type 0 where
  pub type : Text
  pub status : Text

pub record Pod : Type 0 where
  pub name : Text
  pub namespace : Text
  pub phase : Text
  pub pod_ip : Text
  pub conditions : List PodCondition

-- secret.Data
abbrev pub SecretData : Type 0
SecretData = List (Text × Text)

unfoldable pub lookup : Text → SecretData → Option Text
lookup k [] = none
lookup k ((j, v) ∷ m) = if text_eq j k then some v else lookup k m

-- tls.Config: InsecureSkipVerify, or RootCAs made of PEM data
pub data TlsConfig : Type 0 where
  skip_verify : TlsConfig
  root_cas : Text → TlsConfig

-- The http.RoundTripper of an api.Config: none, an *http.Transport with its TLS settings, or another.
pub data Transport : Type 0 where
  absent : Transport
  http : Option TlsConfig → Transport
  foreign : Transport

pub record ApiConfig : Type 0 where
  pub address : Text
  pub transport : Transport

-- internal/vault/client.go, SealStatus and UnsealResponse
pub record SealStatus : Type 0 where
  pub sealed : Bool
  pub t : ℕ
  pub n : ℕ
  pub progress : ℕ
  pub nonce : Text
  pub version : Text
  pub build_date : Text
  pub migration : Bool
  pub cluster_name : Text
  pub cluster_id : Text

pub record UnsealResponse : Type 0 where
  pub sealed : Bool
  pub t : ℕ
  pub n : ℕ
  pub progress : ℕ

-- internal/metrics/metrics.go: the collectors, each with the values of its labels in order
pub data Series : Type 0 where
  reconciliation_total : (vaultunsealer namespace : Text) → Series
  reconciliation_errors : (vaultunsealer namespace error_type : Text) → Series
  unseal_attempts : (vaultunsealer namespace pod status : Text) → Series
  pods_unsealed : (vaultunsealer namespace : Text) → Series
  pods_checked : (vaultunsealer namespace : Text) → Series
  unseal_keys_loaded : (vaultunsealer namespace : Text) → Series
  reconciliation_duration : (vaultunsealer namespace : Text) → Series
  vault_connection_status : (vaultunsealer namespace pod : Text) → Series

-- The calls that have an effect or an answer. `write_raw` on sys/unseal carries the key of its JSON
-- body; `inc`, `set` and `observe` stand for WithLabelValues(…).Inc(), .Set(v) and .Observe(v), and
-- `delete` for DeleteLabelValues.
pub data Call : Type 0 where
  get_vault_unsealer : NamespacedName → Call
  update : VaultUnsealer → Call
  update_status : VaultUnsealer → Call
  list_pods : (namespace selector : Text) → Call
  get_secret : NamespacedName → Call
  new_api_client : ApiConfig → Call
  read_seal_status : ApiConfig → Call
  write_unseal : ApiConfig → (key : Text) → Call
  now : Call
  inc : Series → Call
  set : Series → ℕ → Call
  observe : Series → ℕ → Call
  delete : Series → Call

abbrev pub Trace : Type 0
Trace = List Call

pub record Env : Type 0 where
  pub get_vault_unsealer : Trace → NamespacedName → Result VaultUnsealer
  pub update : Trace → VaultUnsealer → Option Error
  pub update_status : Trace → VaultUnsealer → Option Error
  -- labels.Parse: the error, if the selector is invalid
  pub parse_selector : Text → Option Error
  pub list_pods : Trace → Text → Text → Result (List Pod)
  pub get_secret : Trace → NamespacedName → Result SecretData
  -- api.DefaultConfig and api.NewClient
  pub default_config : ApiConfig
  pub new_api_client : Trace → ApiConfig → Option Error
  -- Logical().ReadRawWithContext on sys/seal-status and WriteRawWithContext on sys/unseal: the body
  pub read_seal_status : Trace → ApiConfig → Result Text
  pub write_unseal : Trace → ApiConfig → Text → Result Text
  -- Response.DecodeJSON
  pub decode_seal_status : Text → Result SealStatus
  pub decode_unseal_response : Text → Result UnsealResponse
  -- CertPool.AppendCertsFromPEM
  pub append_certs_from_pem : Text → Bool
  -- controllerutil.ContainsFinalizer, AddFinalizer and RemoveFinalizer, on the list of finalizers
  pub contains_finalizer : List Text → Text → Bool
  pub add_finalizer : List Text → Text → List Text
  pub remove_finalizer : List Text → Text → List Text
  -- time.Now, in nanoseconds
  pub now : Trace → ℕ
  -- the wording of an error of json.Unmarshal
  pub json_message : Text → Text

-- A program: from the history so far to its value and the history behind it.
abbrev pub Prog {ℓ} : Type ℓ → Type ℓ
Prog A = Trace → A × Trace

module _ {ℓ} {A : Type ℓ} where
  unfoldable pub pure : A → Prog A
  pure a t = (a, t)

  unfoldable pub perform : Call → (Trace → A) → Prog A
  perform c answer t = (answer t, c ∷ t)

-- A call whose answer is not used.
unfoldable pub emit : Call → Prog (Unit {0})
emit c t = (tt, c ∷ t)

infixl 5 ◌>>=◌ ◌>>◌
-- opening this opens `pure`, `perform` and `emit` too
unfoldable pub ◌>>=◌ {ℓ κ} : {A : Type ℓ} {B : Type κ} → Prog A → (A → Prog B) → Prog B
unfolding pure perform emit
◌>>=◌ m f t = let (a, t') = m t in f a t'

abbrev pub ◌>>◌ {ℓ κ} : {A : Type ℓ} {B : Type κ} → Prog A → Prog B → Prog B
m >> k = m >>= λ _. k
