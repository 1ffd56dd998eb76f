-- ===== src/Controller/Pods/Evidence.antt =====
-- Why a pod counts as unsealed: what the Vault at its address answered last.
use vault_unsealer.Prelude.{
  ◌≡◌, refl, sym, ap, subst, ◌∙◌, Bool, true, false, not, List, [], ◌∷◌, ◌++◌, append_assoc,
  if◌then◌else◌,
}
use vault_unsealer.Text.{Text}
use vault_unsealer.Result.{Result, ok, err}
use vault_unsealer.Api.{VaultUnsealer}
use vault_unsealer.Cluster.{
  Env, Call, Trace, pure, ◌>>=◌, Pod, ApiConfig, SealStatus, UnsealResponse, read_seal_status,
  write_unseal,
}
use vault_unsealer.Vault.{get_seal_status, unseal}
use vault_unsealer.Controller.Connection.{vault_url, create_vault_client}
use vault_unsealer.Controller.Connection.Calls.{
  create_vault_client-Emits, address-create_vault_client,
}
use vault_unsealer.Controller.Pods.{after_status, after_client, submit_keys, check_and_unseal_pod}
use vault_unsealer.Controller.Pods.Submission.{sent, Ends, SaysSealed, submit_keys-Ends}

-- The call went to the address, and was answered, behind `t`, by a Vault that is not sealed.
abbrev pub SaysOpen : Env → Text → Call → Trace → Type 0
SaysOpen env address (read_seal_status client) t =
    (client.address ≡ address)
    × ((s : SealStatus) × ((get_seal_status env client t).0 ≡ ok s) × (s.sealed ≡ false))
SaysOpen env address (write_unseal client key) t =
    (client.address ≡ address)
    × ((r : UnsealResponse) × ((unseal env client key t).0 ≡ ok r) × (r.sealed ≡ false))
SaysOpen env _ _ t = ⊥

-- From `t` to `u`, the last call says so.
abbrev pub EndsOpen : Env → Text → Trace → Trace → Type 0
EndsOpen env address t u =
    (call : Call) × (older : Trace) × (u ≡ call ∷ older ++ t)
    × SaysOpen env address call (older ++ t)

-- The history began earlier.
EndsOpen-earlier :
    (env : Env) (address : Text) (new s t u : Trace)
    → t ≡ new ++ s
    → EndsOpen env address t u
    → EndsOpen env address s u
EndsOpen-earlier env address new s t u e (call, older, history, says) =
    let longer = ap (λ w. older ++ w) e ∙ sym (append_assoc older new s) in
    (
      call,
      older ++ new,
      history ∙ ap (λ w. call ∷ w) longer,
      subst (λ w. SaysOpen env address call w) longer says,
    )

sent_older :
    (env : Env) (client : ApiConfig) (keys : List Text) (t : Trace)
    → (older : Trace) × (sent env client keys t ≡ older ++ t)
sent_older env client [] t = ([], refl)
sent_older env client (k ∷ ks) t =
    let (older, e) = sent_older env client ks (write_unseal client k ∷ t) in
    (
      older ++ (write_unseal client k ∷ []),
      e ∙ sym (append_assoc older (write_unseal client k ∷ []) t),
    )

module _ (env : Env) (address : Text) where
  says_open :
      (client : ApiConfig) (key : Text) (t : Trace) (r : Result UnsealResponse)
      → client.address ≡ address
      → (unseal env client key t).0 ≡ r
      → SaysSealed env client r false
      → SaysOpen env address (write_unseal client key) t
  says_open client key t (ok r) a e h = (a, (r, e, h))
  says_open client key t (err x) a e h = absurd h

  submit_keys-open :
      (client : ApiConfig) (keys : List Text) (t : Trace)
      → client.address ≡ address
      → (submit_keys env client keys t).0 ≡ ok false
      → EndsOpen env address t (submit_keys env client keys t).1
  submit_keys-open client keys t a e =
      let (tried, key, rest, _, _, last, history) =
        subst (Ends env client keys t (submit_keys env client keys t).1) e
          (submit_keys-Ends env client keys t) in
      let (older, before) = sent_older env client tried t in
      (
        write_unseal client key,
        older,
        history ∙ ap (λ w. write_unseal client key ∷ w) before,
        subst (λ w. SaysOpen env address (write_unseal client key) w) before
            (says_open client key _ _ a refl last),
      )

  by_status :
      (client : ApiConfig) (keys : List Text) (s : SealStatus) (t : Trace) (sealed : Bool)
      → client.address ≡ address
      → (get_seal_status env client t).0 ≡ ok s
      → s.sealed ≡ sealed
      → (let p =
            (if not sealed then pure (ok false) else submit_keys env client keys)
              (read_seal_status client ∷ t) in
          p.0 ≡ ok false → EndsOpen env address t p.1)
  unfolding ◌>>=◌
  by_status client keys s t false a e h k = (read_seal_status client, [], refl, (a, (s, e, h)))
  by_status client keys s t true a e h k =
      EndsOpen-earlier env address (read_seal_status client ∷ []) t _ _ refl
        (submit_keys-open client keys _ a k)

  after_status-open :
      (client : ApiConfig) (keys : List Text) (r : Result SealStatus) (t : Trace)
      → client.address ≡ address
      → (get_seal_status env client t).0 ≡ r
      → (after_status env client keys r (read_seal_status client ∷ t)).0 ≡ ok false
      → EndsOpen env address t (after_status env client keys r (read_seal_status client ∷ t)).1
  unfolding after_status ◌>>=◌
  after_status-open client keys (err x) t a e k = cc
  after_status-open client keys (ok s) t a e k = by_status client keys s t s.sealed a e refl k

  after_client-open :
      (keys : List Text) (r : Result ApiConfig) (t : Trace)
      → ((c : ApiConfig) → r ≡ ok c → c.address ≡ address)
      → (after_client env keys r t).0 ≡ ok false
      → EndsOpen env address t (after_client env keys r t).1
  unfolding after_client ◌>>=◌ get_seal_status
  after_client-open keys (err x) t a k = cc
  after_client-open keys (ok client) t a k =
      after_status-open client keys _ t (a client refl) refl k

-- checkAndUnsealPod says that a pod is unsealed only if the last call that it made went to the
-- address that the pod's IP and the URL of the specification give, and was answered so: it read the
-- seal status, or submitted a key, and the answer had `sealed` false.
pub check_and_unseal_pod-EndsOpen :
    (env : Env) (pod : Pod) (vu : VaultUnsealer) (keys : List Text) (t : Trace)
    → (check_and_unseal_pod env pod vu keys t).0 ≡ ok false
    → EndsOpen env
        (vault_url pod.pod_ip vu.spec.vault.url)
        t
        (check_and_unseal_pod env pod vu keys t).1
unfolding check_and_unseal_pod ◌>>=◌
check_and_unseal_pod-EndsOpen env pod vu keys t k =
    let (new, e, all) =
      (create_vault_client-Emits env pod vu (λ c. Unit) (λ i h. tt) (λ c h. tt)).at t in
    EndsOpen-earlier env (vault_url pod.pod_ip vu.spec.vault.url) new t _ _ e (
      after_client-open env (vault_url pod.pod_ip vu.spec.vault.url) keys
        (create_vault_client env pod vu t).0 (create_vault_client env pod vu t).1
        (λ c made. address-create_vault_client env pod vu t c made) k)
