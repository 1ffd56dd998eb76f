-- ===== src/Controller/Pods/Loop/Steady.antt =====
-- The loop over pods whose Vaults stay unsealed.
use vault_unsealer.Prelude.{◌≡◌, refl, sym, ap, subst, false, List, ◌∷◌, ◌++◌, All, none}
use vault_unsealer.Text.{Text}
use vault_unsealer.Result.{ok}
use vault_unsealer.Api.{VaultConnectionSpec, VaultUnsealer}
use vault_unsealer.Cluster.{
  Env, Trace, ◌>>=◌, pure, perform, Pod, ApiConfig, SealStatus, read_seal_status,
}
use vault_unsealer.Cluster.Grew.{Grew, Grew-call, Grew-trans, Grew-of_Emits}
use vault_unsealer.Vault.{get_seal_status}
use vault_unsealer.Controller.Connection.{vault_url, create_vault_client}
use vault_unsealer.Controller.Connection.Calls.{create_vault_client-Emits}
use vault_unsealer.Controller.Pods.{
  Visit, checked, after_status, after_client, check_and_unseal_pod, visit_pods,
}
use vault_unsealer.Controller.Pods.Behaviour.{client_at, client_made}
use vault_unsealer.Controller.Pods.Loop.Ready.{
  AllReady, IsSilent, ready_names, reached, Opening, visit_pods-Named,
}

-- From `start` on, clients for the address of the pod at the URL can be made, and its Vault says that
-- it is not sealed, as long as no key is submitted.
pub record StaysOpen (env : Env) (url : Text) (start : Trace) (pod : Pod) : Type 0 where
  pub connects :
      (t : Trace) (config : ApiConfig)
      → config.address ≡ vault_url pod.pod_ip url
      → env.new_api_client t config ≡ none
  pub reports :
      (client : ApiConfig) (new : Trace)
      → client.address ≡ vault_url pod.pod_ip url
      → All IsSilent new
      → (s : SealStatus) × ((get_seal_status env client (new ++ start)).0 ≡ ok s)
        × (s.sealed ≡ false)

module _ (env : Env) (keys : List Text) where
  check_open :
      (pod : Pod) (vu : VaultUnsealer) (t : Trace) (client : ApiConfig) (status : SealStatus)
      → (create_vault_client env pod vu t).0 ≡ ok client
      → (get_seal_status env client (create_vault_client env pod vu t).1).0 ≡ ok status
      → status.sealed ≡ false
      → check_and_unseal_pod env pod vu keys t
        ≡ (ok false, read_seal_status client ∷ (create_vault_client env pod vu t).1)
  unfolding check_and_unseal_pod after_client after_status ◌>>=◌ get_seal_status pure perform
  check_open pod vu t client status made answered unsealed =
      rw (made, after_client, ◌>>=◌, answered, unsealed)

  check_StaysOpen :
      (pod : Pod) (vu : VaultUnsealer) (start t : Trace)
      → Grew IsSilent start t
      → StaysOpen env vu.spec.vault.url start pod
      → ((check_and_unseal_pod env pod vu keys t).0 ≡ ok false)
        × Grew IsSilent start (check_and_unseal_pod env pod vu keys t).1
  check_StaysOpen pod vu start t grew vault =
      let client = client_at env pod vu t in
      let made = client_made env pod vu t vault.connects in
      let (first, e, silent) = Grew-trans grew (
        Grew-of_Emits t (create_vault_client-Emits env pod vu IsSilent (λ id h. tt) (λ c h. tt))) in
      let (status, said, unsealed) = vault.reports client first refl silent in
      let same =
        check_open pod vu t client status made
          (subst (λ u. (get_seal_status env client u).0 ≡ ok status) (sym e) said) unsealed in
      (
        ap (λ p. p.0) same,
        subst (λ p. Grew IsSilent start p.1) (sym same)
            (Grew-call (read_seal_status client) tt (first, e, silent)),
      )

  module _ (start : Trace) where
    Quiet : VaultConnectionSpec → Trace → List Pod → Type 0
    Quiet vault t pods = Grew IsSilent start t × AllReady (StaysOpen env vault.url start) pods

    Quiet-Opening : Opening env keys Quiet
    unfolding Quiet
    Quiet-Opening = record {
      opens = λ pod pods v t ready (grew, vaults).
          (check_StaysOpen pod (checked pod v).vu start t grew (vaults.0 ready)).0;
      later = λ pod pods v t ready (grew, vaults). (
        Grew-call _ tt (
            Grew-call _ tt
              (check_StaysOpen pod (checked pod v).vu start t grew (vaults.0 ready)).1),
        vaults.1,
      );
      fewer = λ vault pod pods t (grew, vaults). (grew, vaults.1);
    }

    -- The loop submits nothing and counts as unsealed the ready pods that it comes to.
    pub visit_pods-steady :
        (pods : List Pod) (v : Visit) (t : Trace)
        → Grew IsSilent start t
        → AllReady (StaysOpen env v.vu.spec.vault.url start) pods
        → ((visit_pods env keys pods v t).0.vu.status.unsealed_pods
            ≡ v.vu.status.unsealed_pods ++ reached v.vu.spec.mode.ha (ready_names pods))
          × Grew IsSilent start (visit_pods env keys pods v t).1
    unfolding Quiet
    visit_pods-steady pods v t grew vaults =
        let (names, (rest, (grew', left))) =
          visit_pods-Named env keys Quiet Quiet-Opening pods v t (grew, vaults) in
        (names, grew')
