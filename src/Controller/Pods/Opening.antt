-- ===== src/Controller/Pods/Opening.antt =====
-- The check of one pod whose Vault behaves as documented, whatever was submitted to other addresses
-- before.
use vault_unsealer.Prelude.{
  ℕ, ◌<◌, ◌≤◌, ◌≡◌, ◌≢◌, refl, sym, ap, subst, ◌∙◌, true, false, List, [], ◌∷◌, ◌++◌, append_assoc,
  append-nil, ltb, length, length-take, take, All-take, IsDistinct-take, All, IsDistinct, arith,
}
use vault_unsealer.Text.{Text}
use vault_unsealer.Result.{ok}
use vault_unsealer.Api.{VaultUnsealer}
use vault_unsealer.Cluster.{Env, Trace, Pod, ApiConfig, read_seal_status}
use vault_unsealer.Vault.{get_seal_status}
use vault_unsealer.Secrets.Loader.Distinct.{first_occurrences}
use vault_unsealer.Controller.Connection.{vault_url}
use vault_unsealer.Controller.Connection.Calls.{create_vault_client-Emits}
use vault_unsealer.Controller.Pods.{check_and_unseal_pod, submit_keys}
use vault_unsealer.Controller.Pods.Quorum.{submitted, progress, OpensAt, submit_keys-quorum}
use vault_unsealer.Controller.Pods.Submission.{sent}
use vault_unsealer.Controller.Pods.Held.{sent-Received, progress-Received}
use vault_unsealer.Controller.Pods.Enough.{IsFoundSealed, check_found}
use vault_unsealer.Controller.Pods.Behaviour.{
  IsQuiet, submitted-append, submitted-quiet, OpensAt-later, Holds, Behaves, client_at, client_made,
}

module _ (env : Env) (IsShare : Text → Type 0) (quorum : ℕ) (positive : 0 < quorum) (start : Trace)
    (keys : List Text) (shares : All IsShare keys) (distinct : IsDistinct keys)
    (enough : quorum ≤ length keys) (pod : Pod) (vu : VaultUnsealer) where
  abbrev address : Text
  address = vault_url pod.pod_ip vu.spec.vault.url

  -- What the check of the pod is, if nothing was submitted to its address.
  record Run (t : Trace) : Type 0 where
    client : ApiConfig
    at_address : client.address ≡ address
    between : Trace
    nothing : submitted address between ≡ []
    opens : OpensAt env address IsShare quorum (between ++ start)
    result :
        check_and_unseal_pod env pod vu keys t
        ≡ (ok false, sent env client (take quorum keys) (between ++ start))

  check-Run :
      (new : Trace)
      → Behaves env vu.spec.vault.url IsShare quorum start pod
      → submitted address new ≡ []
      → Run (new ++ start)
  unfolding first_occurrences submitted
  check-Run new vault quiet =
      let t = new ++ start in
      let client = client_at env pod vu t in
      let made = client_made env pod vu t vault.connects in
      let (first, e, calls) =
        (create_vault_client-Emits env pod vu (IsQuiet address) (λ id h. tt) (λ c h. tt)).at t in
      let before = e ∙ sym (append_assoc first new start) in
      let still : submitted address (first ++ new) ≡ [] =
        submitted-append address first new
        ∙ ap (λ l. l ++ submitted address new) (submitted-quiet address first calls)
        ∙ quiet in
      let (status, said, sealed) =
        vault.reports client (first ++ new) refl (subst (All IsShare) (sym still) tt) in
      let none_held : ltb (progress []) quorum ≡ true = ground arith in
      let found : IsFoundSealed env vu pod client status t = record {
        client_made = made;
        answered = subst (λ u. (get_seal_status env client u).0 ≡ ok status) (sym before) said;
        sealed = sealed ∙ ap (λ l. ltb (progress l) quorum) still ∙ none_held;
      } in
      let opens =
        OpensAt-later env address IsShare quorum start (read_seal_status client ∷ first ++ new)
          still vault.opens in
      let all_of : ltb (length keys) quorum ≡ false = ground arith in
      record {
        client = client;
        at_address = refl;
        between = read_seal_status client ∷ first ++ new;
        nothing = still;
        opens = opens;
        result =
            check_found env vu pod client status t keys found
            ∙ ap (λ u. submit_keys env client keys (read_seal_status client ∷ u)) before
            ∙ submit_keys-quorum env client IsShare quorum _ keys opens positive shares distinct
            ∙ ap
                (λ b. (
                  ok b,
                  sent env client (take quorum keys)
                      ((read_seal_status client ∷ first ++ new) ++ start),
                ))
                all_of;
      }

  -- If nothing was submitted to the pod's address, the check ends with "unsealed".
  pub check_and_unseal_pod-opens :
      (new : Trace)
      → Behaves env vu.spec.vault.url IsShare quorum start pod
      → submitted address new ≡ []
      → (check_and_unseal_pod env pod vu keys (new ++ start)).0 ≡ ok false
  check_and_unseal_pod-opens new vault quiet = ap (λ p. p.0) (check-Run new vault quiet).result

  -- The check leaves the quorum of shares at the pod's address.
  pub check_and_unseal_pod-Holds :
      (new : Trace)
      → Behaves env vu.spec.vault.url IsShare quorum start pod
      → submitted address new ≡ []
      → (held : Trace) × ((check_and_unseal_pod env pod vu keys (new ++ start)).1 ≡ held ++ start)
        × Holds IsShare quorum address held
  unfolding submitted
  check_and_unseal_pod-Holds new vault quiet =
      let run = check-Run new vault quiet in
      let opens =
        subst (λ a. OpensAt env a IsShare quorum (run.between ++ start)) (sym run.at_address)
          run.opens in
      let some_keys = take quorum keys in
      let r =
        sent-Received env run.client IsShare quorum (run.between ++ start) opens some_keys []
          (record {
            shares = All-take IsShare quorum keys shares;
            received_shares = tt;
            distinct = IsDistinct-take quorum keys distinct;
            received_distinct = tt;
            apart = nothing_received some_keys;
          }) in
      let all =
        submitted-append address r.new run.between
        ∙ ap (λ l. submitted address r.new ++ l) run.nothing
        ∙ append-nil (submitted address r.new) in
      let here = ap (λ a. submitted a r.new) run.at_address in
      let number = progress-Received env run.client IsShare quorum (run.between ++ start) opens r in
      let counted = length-take quorum keys in
      let many = ap progress all ∙ ap progress (sym here) ∙ number in
      (
        r.new ++ run.between,
        ap (λ p. p.1) run.result ∙ r.same ∙ sym (append_assoc r.new run.between start),
        record { shares = subst (All IsShare) (here ∙ sym all) r.shares; reached = omega arith },
      )
    where
      nothing_received : (ks : List Text) → All (λ k. All (λ j. k ≢ j) []) ks
      nothing_received [] = tt
      nothing_received (k ∷ ks) = (tt, nothing_received ks)
