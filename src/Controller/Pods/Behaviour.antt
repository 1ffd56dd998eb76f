-- ===== src/Controller/Pods/Behaviour.antt =====
-- The documented behaviour of a pod's Vault, and what other calls leave of it.
use vault_unsealer.Prelude.{
  ℕ, ◌≤◌, ◌≡◌, ◌≢◌, refl, sym, ap, subst, ◌∙◌, Bool-cases, inl, inr, [], ◌∷◌, ◌++◌, append_assoc,
  append-nil, none, ltb, All,
}
use vault_unsealer.Text.{Text, text_eq, eq_of_text_eq}
use vault_unsealer.Result.{ok}
use vault_unsealer.Api.{VaultUnsealer}
use vault_unsealer.Cluster.{
  Env, Call, Trace, ◌>>=◌, pure, perform, Pod, ApiConfig, SealStatus, write_unseal,
}
use vault_unsealer.Vault.{with_tls, created, new_client, get_seal_status, unseal}
use vault_unsealer.Controller.Connection.{vault_url, choose_tls, create_vault_client}
use vault_unsealer.Controller.Pods.Quorum.{submitted, progress, OpensAt}

-- The call submits nothing to the address.
abbrev pub IsQuiet : Text → Call → Type 0
IsQuiet address (write_unseal client key) = client.address ≢ address
IsQuiet address c = Unit

pub submitted-append :
    (address : Text) (new t : Trace)
    → submitted address (new ++ t) ≡ submitted address new ++ submitted address t
unfolding submitted
submitted-append address [] t = refl
submitted-append address (write_unseal client key ∷ new) t =
    elim (Bool-cases (text_eq client.address address)) [
      | inl y ↦ rw y (ap (λ l. key ∷ l) (submitted-append address new t))
      | inr n ↦ rw n (submitted-append address new t)
    ]
submitted-append address (c ∷ new) t = submitted-append address new t

pub submitted-quiet :
    (address : Text) (new : Trace) → All (IsQuiet address) new → submitted address new ≡ []
unfolding submitted
submitted-quiet address [] h = refl
submitted-quiet address (write_unseal client key ∷ new) h =
    elim (Bool-cases (text_eq client.address address)) [
      | inl y ↦ absurd (h.0 (eq_of_text_eq client.address address y))
      | inr n ↦ rw n (submitted-quiet address new h.1)
    ]
submitted-quiet address (c ∷ new) h = submitted-quiet address new h.1

-- Behind calls that submit nothing to it, a Vault still opens at its quorum.
pub OpensAt-later :
    (env : Env) (address : Text) (IsShare : Text → Type 0) (quorum : ℕ) (start between : Trace)
    → submitted address between ≡ []
    → OpensAt env address IsShare quorum start
    → OpensAt env address IsShare quorum (between ++ start)
OpensAt-later env address IsShare quorum start between quiet vault = record {
  answers = λ client key new same shares.
      let joined =
        submitted-append address new between
        ∙ ap (λ l. submitted address new ++ l) quiet
        ∙ append-nil (submitted address new) in
      let (r, said, sealed) =
        vault.answers client key (new ++ between) same
          (subst (λ l. All IsShare (key ∷ l)) (sym joined) shares) in
      (
        r,
        subst (λ u. (unseal env client key u).0 ≡ ok r) (append_assoc new between start) said,
        sealed ∙ ap (λ l. ltb (progress (key ∷ l)) quorum) joined,
      );
}

-- A history submits shares alone to the address, and a quorum of them.
pub record Holds (IsShare : Text → Type 0) (quorum : ℕ) (address : Text) (new : Trace)
    : Type 0 where
  pub shares : All IsShare (submitted address new)
  pub reached : quorum ≤ progress (submitted address new)

-- From `start` on, the Vault of the pod at the URL behaves as documented: clients for its address can
-- be made, it says that it is sealed while it holds less than `quorum` different shares, and it opens
-- at `quorum`.
pub record Behaves (env : Env) (url : Text) (IsShare : Text → Type 0) (quorum : ℕ) (start : Trace)
    (pod : Pod) : Type 0 where
  pub connects :
      (t : Trace) (config : ApiConfig)
      → config.address ≡ vault_url pod.pod_ip url
      → env.new_api_client t config ≡ none
  pub reports :
      (client : ApiConfig) (new : Trace)
      → client.address ≡ vault_url pod.pod_ip url
      → All IsShare (submitted (vault_url pod.pod_ip url) new)
      → (s : SealStatus) × ((get_seal_status env client (new ++ start)).0 ≡ ok s)
        × (s.sealed ≡ ltb (progress (submitted (vault_url pod.pod_ip url) new)) quorum)
  pub opens : OpensAt env (vault_url pod.pod_ip url) IsShare quorum start

module _ (env : Env) (pod : Pod) (vu : VaultUnsealer) where
  -- the client, with the TLS settings that the history gives
  abbrev pub client_at : Trace → ApiConfig
  client_at t = record {
    address = vault_url pod.pod_ip vu.spec.vault.url;
    transport = with_tls (choose_tls env vu t).0 env.default_config.transport;
  }

  pub client_made :
      (t : Trace)
      → ((u : Trace) (config : ApiConfig)
          → config.address ≡ vault_url pod.pod_ip vu.spec.vault.url
          → env.new_api_client u config ≡ none)
      → (create_vault_client env pod vu t).0 ≡ ok (client_at t)
  unfolding create_vault_client new_client ◌>>=◌ pure perform
  client_made t connects =
      ap (λ failure. created env (client_at t) failure)
        (connects (choose_tls env vu t).1 (client_at t) refl)
