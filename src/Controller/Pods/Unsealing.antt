-- ===== src/Controller/Pods/Unsealing.antt =====
-- Which calls the check of one pod makes: the keys go to the address that its IP gives, and nowhere
-- else.
use vault_unsealer.Prelude.{◌≡◌, ◌≢◌, refl, Bool, true, false, not, List, [], ◌∷◌, none, some, Memᴰ}
use vault_unsealer.Text.{Text}
use vault_unsealer.Result.{Result, ok, err}
use vault_unsealer.Api.{SecretRef, VaultConnectionSpec, VaultUnsealer}
use vault_unsealer.Cluster.{
  Env, Call, Prog, pure, Pod, ApiConfig, UnsealResponse, SealStatus, get_secret, new_api_client,
  read_seal_status, write_unseal,
}
use vault_unsealer.Cluster.Emits.{
  Emits, Emits-bind, Emits-bind_of, Emits-pure, Emits-perform, Emits-if,
}
use vault_unsealer.Secrets.Loader.{namespaced_name}
use vault_unsealer.Vault.{get_seal_status, unseal}
use vault_unsealer.Controller.Connection.{vault_url, create_vault_client}
use vault_unsealer.Controller.Connection.Calls.{
  create_vault_client-Emits, address-create_vault_client,
}
use vault_unsealer.Controller.Pods.{
  after_answer, submit_keys, after_status, after_client, check_and_unseal_pod,
}

-- `address` is that of the pod, and the calls of the check are among these.
abbrev pub IsPodCall : VaultConnectionSpec → List Text → Text → Call → Type 0
IsPodCall vault keys address (get_secret id) = vault.ca_bundle_secret_ref ≢ none
IsPodCall vault keys address (new_api_client config) = config.address ≡ address
IsPodCall vault keys address (read_seal_status client) = client.address ≡ address
IsPodCall vault keys address (write_unseal client key) = (client.address ≡ address) × Memᴰ key keys
IsPodCall _ _ _ _ = ⊥

-- With a property of the calls to Vault at one address.
module _ (env : Env) (all_keys : List Text) (address : Text) (P : Call → Type 0)
    (asks : (c : ApiConfig) → c.address ≡ address → P (read_seal_status c))
    (sends : (c : ApiConfig) (k : Text)
      → c.address ≡ address
      → Memᴰ k all_keys
      → P (write_unseal c k)) where
  after_answer-Emits :
      (r : Result UnsealResponse) (rest : Prog (Result Bool))
      → Emits P rest
      → Emits P (after_answer r rest)
  unfolding after_answer
  after_answer-Emits (err e) rest h = Emits-pure (err e)
  after_answer-Emits (ok response) rest h =
      Emits-if (not response.sealed) (pure (ok false)) rest (λ _. Emits-pure (ok false)) (λ _. h)

  submit_keys-Emits :
      (client : ApiConfig) (keys : List Text)
      → client.address ≡ address
      → ((k : Text) → Memᴰ k keys → Memᴰ k all_keys)
      → Emits P (submit_keys env client keys)
  unfolding submit_keys unseal
  submit_keys-Emits client [] a inside = Emits-pure (ok true)
  submit_keys-Emits client (key ∷ keys) a inside =
      let sent : Emits P (unseal env client key) =
        Emits-bind _ _ (Emits-perform _ _ (sends client key a (inside key (Memᴰ.head refl))))
          (λ b. Emits-pure _) in
      Emits-bind _ _ sent λ r.
        after_answer-Emits r (submit_keys env client keys)
          (submit_keys-Emits client keys a (λ k m. inside k (Memᴰ.tail m)))

  after_status-Emits :
      (status : Result SealStatus) (client : ApiConfig)
      → client.address ≡ address
      → Emits P (after_status env client all_keys status)
  unfolding after_status
  after_status-Emits (err e) client a = Emits-pure (err e)
  after_status-Emits (ok status) client a =
      Emits-if (not status.sealed) (pure (ok false)) (submit_keys env client all_keys)
        (λ _. Emits-pure (ok false)) (λ _. submit_keys-Emits client all_keys a (λ k m. m))

  after_client-Emits :
      (client : Result ApiConfig)
      → ((c : ApiConfig) → client ≡ ok c → c.address ≡ address)
      → Emits P (after_client env all_keys client)
  unfolding after_client get_seal_status
  after_client-Emits (err e) h = Emits-pure _
  after_client-Emits (ok c) h =
      let read : Emits P (get_seal_status env c) =
        Emits-bind _ _ (Emits-perform _ _ (asks c (h c refl))) (λ b. Emits-pure _) in
      Emits-bind _ _ read (λ status. after_status-Emits status c (h c refl))

module _ (env : Env) (vu : VaultUnsealer) (pod : Pod) (keys : List Text) where
  abbrev own_address : Text
  own_address = vault_url pod.pod_ip vu.spec.vault.url

  -- With a property of the calls that read the CA secret, make a client for the pod's address, and
  -- call Vault there.
  pub check_and_unseal_pod-Emits_of :
      (P : Call → Type 0)
      → ((ref : SecretRef)
          → vu.spec.vault.ca_bundle_secret_ref ≡ some ref
          → P (get_secret (namespaced_name vu.namespace ref)))
      → ((c : ApiConfig) → c.address ≡ own_address → P (new_api_client c))
      → ((c : ApiConfig) → c.address ≡ own_address → P (read_seal_status c))
      → ((c : ApiConfig) (k : Text) → c.address ≡ own_address → Memᴰ k keys → P (write_unseal c k))
      → Emits P (check_and_unseal_pod env pod vu keys)
  unfolding check_and_unseal_pod
  check_and_unseal_pod-Emits_of P reads makes asks sends =
      Emits-bind_of _ _ (create_vault_client-Emits env pod vu P reads makes) λ t.
        after_client-Emits env keys own_address P asks sends (create_vault_client env pod vu t).0
          (λ c e. address-create_vault_client env pod vu t c e)

  -- The check of a pod reads the CA secret at most, and calls Vault at the pod's address alone; it
  -- submits only keys that it was given.
  pub check_and_unseal_pod-Emits :
      Emits (IsPodCall vu.spec.vault keys own_address) (check_and_unseal_pod env pod vu keys)
  check_and_unseal_pod-Emits =
      check_and_unseal_pod-Emits_of (IsPodCall vu.spec.vault keys own_address) (λ ref e. λ n. cc)
        (λ c a. a) (λ c a. a) (λ c k a m. (a, m))
