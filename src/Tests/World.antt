-- ===== src/Tests/World.antt =====
-- A cluster with three pods, of which one is not ready, and a Vault that opens at the key "beta".
use vault_unsealer.Prelude.{
  pos, Bool, true, false, not, ◌||◌, List, [], ◌∷◌, ◌++◌, none, if◌then◌else◌,
}
use vault_unsealer.Text.{Text, codes, text_eq}
use vault_unsealer.Result.{ok}
use vault_unsealer.Api.{SecretRef, VaultUnsealerSpec, VaultUnsealer}
use vault_unsealer.Cluster.{Env, Pod, absent, SealStatus}
use vault_unsealer.Controller.Lifecycle.{vault_unsealer_finalizer}

abbrev pub key_ref : SecretRef
key_ref = record { name = codes "unseal-keys"; namespace = []; key = codes "keys" }

abbrev pub spec_of : Bool → VaultUnsealerSpec
spec_of ha = record {
  vault = record {
    url = codes "http://vault.vault.svc:8200";
    ca_bundle_secret_ref = none;
    insecure_skip_verify = true;
  };
  unseal_keys_secret_refs = key_ref ∷ [];
  interval = none;
  vault_label_selector = codes "app=vault";
  mode = record { ha = ha };
  key_threshold = pos 2;
}

abbrev pub unsealer : VaultUnsealer
unsealer = record {
  name = codes "main";
  namespace = codes "vault";
  generation = pos 1;
  resource_version = codes "12";
  finalizers = vault_unsealer_finalizer ∷ [];
  deleting = false;
  spec = spec_of true;
  status = record {
    pods_checked = codes "vault-0" ∷ [];
    unsealed_pods = [];
    conditions = [];
    last_reconcile_time = none;
  };
}

abbrev pub dying_unsealer : VaultUnsealer
dying_unsealer = record unsealer { deleting = true }

abbrev pub ready_pod : Text → Text → Pod
ready_pod name ip = record {
  name = name;
  namespace = codes "vault";
  phase = codes "Running";
  pod_ip = ip;
  conditions = record { type = codes "Ready"; status = codes "True" } ∷ [];
}

abbrev pub starting_pod : Pod
starting_pod = record {
  name = codes "vault-1";
  namespace = codes "vault";
  phase = codes "Pending";
  pod_ip = [];
  conditions = [];
}

abbrev pub pods : List Pod
pods =
    ready_pod (codes "vault-0") (codes "10.0.0.1")
    ∷ starting_pod
    ∷ ready_pod (codes "vault-2") (codes "10.0.0.3")
    ∷ []

abbrev pub seal_status : Bool → SealStatus
seal_status sealed = record {
  sealed = sealed;
  t = 2;
  n = 3;
  progress = 0;
  nonce = [];
  version = codes "1.15.0";
  build_date = [];
  migration = false;
  cluster_name = [];
  cluster_id = [];
}

abbrev pub secret_lines : Text
secret_lines = codes "alpha\nbeta\nalpha"

abbrev pub contains : List Text → Text → Bool
contains [] f = false
contains (g ∷ l) f = text_eq g f || contains l f

abbrev pub without : List Text → Text → List Text
without [] f = []
without (g ∷ l) f = let rest = without l f in if text_eq g f then rest else g ∷ rest

abbrev pub world : VaultUnsealer → Env
world vu = record {
  get_vault_unsealer = λ t id. ok vu;
  update = λ t new. none;
  update_status = λ t new. none;
  parse_selector = λ selector. none;
  list_pods = λ t namespace selector. ok pods;
  get_secret = λ t id. ok ((codes "keys", secret_lines) ∷ []);
  default_config = record { address = []; transport = absent };
  new_api_client = λ t config. none;
  read_seal_status = λ t client. ok (codes "sealed");
  write_unseal = λ t client key. ok key;
  decode_seal_status = λ body. ok (seal_status (text_eq body (codes "sealed")));
  decode_unseal_response = λ body.
      ok (record { sealed = not (text_eq body (codes "beta")); t = 2; n = 3; progress = 1 });
  append_certs_from_pem = λ pem. false;
  contains_finalizer = contains;
  add_finalizer = λ l f. l ++ f ∷ [];
  remove_finalizer = without;
  now = λ t. 7;
  json_message = λ data'. codes "invalid character";
}
