-- ===== src/Controller/Reconcile/Settled.antt =====
-- The pass behind one that opened the Vaults.
use vault_unsealer.Prelude.{
  ℕ, ◌<◌, ◌≤◌, ◌≡◌, sym, ap, subst, ◌∙◌, true, false, List, [], ◌∷◌, ◌++◌, append_assoc, length,
  ltb, some, All, arith,
}
use vault_unsealer.Text.{Text}
use vault_unsealer.Result.{ok}
use vault_unsealer.Api.{VaultUnsealer, VaultUnsealerSpec}
use vault_unsealer.Cluster.{Env, Trace, Pod}
use vault_unsealer.Cluster.Emits.{All-mono}
use vault_unsealer.Cluster.Grew.{Grew, Grew-call, Grew-refl, Grew-trans}
use vault_unsealer.Vault.{get_seal_status}
use vault_unsealer.Secrets.Loader.Guarantees.{load_unseal_keys-AreLoaded}
use vault_unsealer.Controller.Connection.{vault_url}
use vault_unsealer.Controller.Pods.{visit_pods}
use vault_unsealer.Controller.Pods.Quorum.{submitted, progress}
use vault_unsealer.Controller.Pods.Behaviour.{Behaves, Holds, submitted-append, submitted-quiet}
use vault_unsealer.Controller.Pods.Loop.Ready.{IsSilent, AllReady, ready_names, reached}
use vault_unsealer.Controller.Pods.Loop.Opened.{AreApart, Untouched-of_silent, IsQuiet-of_IsSilent}
use vault_unsealer.Controller.Pods.Loop.Settled.{Settled, visit_pods-Settled}
use vault_unsealer.Controller.Pods.Loop.Steady.{StaysOpen}
use vault_unsealer.Controller.Reconcile.{reconcile_vault_unsealer}
use vault_unsealer.Controller.Reconcile.Report.{last_saved, begun_at, listed_at}
use vault_unsealer.Controller.Reconcile.Full.{
  listing, loaded_at, fresh, counted, loaded-IsSilent, IsSilent-reconcile_vault_unsealer,
}
use vault_unsealer.Controller.Reconcile.Status.{HasTable}
use vault_unsealer.Controller.Reconcile.Verdict.{IsJudged}
use vault_unsealer.Controller.Reconcile.Steady.{reconcile_vault_unsealer-steady}

module _ (env : Env) (IsShare : Text → Type 0) (quorum : ℕ) (start : Trace) where
  -- A Vault that holds a quorum stays open.
  StaysOpen-of_Holds :
      (url : Text) (pod : Pod) (new t : Trace)
      → Behaves env url IsShare quorum start pod
      → Holds IsShare quorum (vault_url pod.pod_ip url) new
      → Grew IsSilent (new ++ start) t
      → StaysOpen env url t pod
  StaysOpen-of_Holds url pod new t vault held (more, e, silent) = record {
    connects = vault.connects;
    reports = λ client calls at_address quiet.
        let address = vault_url pod.pod_ip url in
        let all = calls ++ (more ++ new) in
        let same : calls ++ t ≡ all ++ start =
          ap (λ u. calls ++ u) (e ∙ sym (append_assoc more new start))
          ∙ sym (append_assoc calls (more ++ new) start) in
        let keys : submitted address all ≡ submitted address new =
          submitted-append address calls (more ++ new)
          ∙ ap (λ l. l ++ submitted address (more ++ new))
              (submitted-quiet address calls (All-mono (IsQuiet-of_IsSilent address) calls quiet))
          ∙ submitted-append address more new
          ∙ ap (λ l. l ++ submitted address new)
              (submitted-quiet address more (All-mono (IsQuiet-of_IsSilent address) more silent)) in
        let (status, said, sealed) =
          vault.reports client all at_address (subst (All IsShare) (sym keys) held.shares) in
        let enough = held.reached in
        let open_now : ltb (progress (submitted address new)) quorum ≡ false = ground arith in
        (
          status,
          subst (λ u. (get_seal_status env client u).0 ≡ ok status) (sym same) said,
          sealed ∙ ap (λ l. ltb (progress l) quorum) keys ∙ open_now,
        );
  }

  all_StaysOpen :
      (url : Text) (pods : List Pod) (new t : Trace)
      → AllReady (Behaves env url IsShare quorum start) pods
      → AllReady (λ q. Holds IsShare quorum (vault_url q.pod_ip url) new) pods
      → Grew IsSilent (new ++ start) t
      → AllReady (StaysOpen env url t) pods
  all_StaysOpen url [] new t vaults held grew = tt
  all_StaysOpen url (pod ∷ pods) new t vaults held grew = (
    λ ready. StaysOpen-of_Holds url pod new t (vaults.0 ready) (held.0 ready) grew,
    all_StaysOpen url pods new t vaults.1 held.1 grew,
  )

-- A pass with HA finds pods and loads keys that are all shares and reach the quorum, and from its
-- start on the Vault of each ready pod behaves as documented, holds no share, and has an address of its
-- own. Behind it, and behind other calls that submit no key, a second pass over an object with the same
-- specification, in which no type has two conditions, finds the same pods and loads keys. Then the
-- second pass submits no key, and the status that it saves names exactly the ready pods, in order, as
-- unsealed; Ready is True if there is one and False if not, and no failure condition is left.
pub reconcile_vault_unsealer-settles :
    (env : Env) (vu : VaultUnsealer) (t : Trace) (IsShare : Text → Type 0) (quorum : ℕ) (pod : Pod)
    (pods : List Pod) (keys : List Text) (again : VaultUnsealer) (later : Trace)
    (new_keys : List Text)
    → 0 < quorum
    → vu.spec.mode.ha ≡ true
    → listed_at env vu t ≡ ok (pod ∷ pods)
    → (loaded_at env vu t).0 ≡ ok keys
    → All IsShare keys
    → quorum ≤ length keys
    → AllReady (Behaves env vu.spec.vault.url IsShare quorum t) (pod ∷ pods)
    → AreApart vu.spec.vault.url (pod ∷ pods)
    → Grew IsSilent (reconcile_vault_unsealer env vu t).1 later
    → again.spec ≡ vu.spec
    → HasTable again
    → listed_at env again later ≡ ok (pod ∷ pods)
    → (loaded_at env again later).0 ≡ ok new_keys
    → Grew IsSilent later (reconcile_vault_unsealer env again later).1
      × ((saved : VaultUnsealer) × (last_saved (reconcile_vault_unsealer env again later).1
            ≡ some saved)
          × (saved.status.unsealed_pods ≡ ready_names (pod ∷ pods))
          × IsJudged saved)
reconcile_vault_unsealer-settles env vu t IsShare quorum pod pods keys again later new_keys positive
      on listed loaded shares enough vaults apart since same table listed' loaded' =
    let (parts, _, all_loaded) =
      load_unseal_keys-AreLoaded env vu.namespace vu.spec.unseal_keys_secret_refs
        vu.spec.key_threshold (listing env vu t) keys loaded in
    let url = vu.spec.vault.url in
    let from = fresh env (begun_at env vu t) in
    let begins = counted env vu keys (loaded_at env vu t).1 in
    let (new, e, silent) = Grew-call _ tt (loaded-IsSilent env vu t) in
    let settled =
      subst
        (λ u.
          Settled env IsShare quorum positive t keys shares all_loaded.distinct enough url
            (pod ∷ pods) new (visit_pods env keys (pod ∷ pods) from u).1)
        (sym e)
        (visit_pods-Settled env IsShare quorum positive t keys shares all_loaded.distinct enough
          (pod ∷ pods) from new on vaults apart
          (Untouched-of_silent url new (pod ∷ pods) silent)) in
    let point = (settled.more ++ new) ++ t in
    let first =
      IsSilent-reconcile_vault_unsealer env vu t point pod pods keys listed loaded
        (subst (Grew IsSilent point) (sym settled.same) Grew-refl) in
    let opened =
      all_StaysOpen env IsShare quorum t url (pod ∷ pods) (settled.more ++ new) later vaults
        settled.holds (Grew-trans first since) in
    let (quiet, (saved, saved_last, names, judged)) =
      reconcile_vault_unsealer-steady env again later pod pods new_keys listed' loaded'
        (subst (λ (s : VaultUnsealerSpec). AllReady (StaysOpen env s.vault.url later) (pod ∷ pods))
          (sym same) opened)
        table in
    let ha = ap (λ (s : VaultUnsealerSpec). s.mode.ha) same ∙ on in
    (quiet, (saved, saved_last, names ∙ ap (λ b. reached b (ready_names (pod ∷ pods))) ha, judged))
