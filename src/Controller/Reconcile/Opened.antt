-- ===== src/Controller/Reconcile/Opened.antt =====
-- A whole pass over pods whose Vaults behave as documented, with keys that are enough.
use vault_unsealer.Prelude.{ℕ, ◌<◌, ◌≤◌, ◌≡◌, refl, ◌∙◌, List, ◌∷◌, some, length, All}
use vault_unsealer.Text.{Text}
use vault_unsealer.Result.{ok}
use vault_unsealer.Api.{VaultUnsealer}
use vault_unsealer.Cluster.{Env, Trace, Pod, set, unseal_keys_loaded}
use vault_unsealer.Cluster.Grew.{Grew-call}
use vault_unsealer.Secrets.Loader.Guarantees.{load_unseal_keys-AreLoaded}
use vault_unsealer.Controller.Pods.{Visit, visit_pods}
use vault_unsealer.Controller.Pods.Behaviour.{Behaves}
use vault_unsealer.Controller.Pods.Loop.{visit_pods-IsVisited}
use vault_unsealer.Controller.Pods.Loop.Ready.{AllReady, ready_names, reached}
use vault_unsealer.Controller.Pods.Loop.Opened.{AreApart, visit_pods-opens}
use vault_unsealer.Controller.Reconcile.{completed, reconcile_vault_unsealer}
use vault_unsealer.Controller.Reconcile.Report.{last_saved, begun_at, listed_at}
use vault_unsealer.Controller.Reconcile.Full.{listing, loaded_at, loaded-IsSilent, last_saved_lem}
use vault_unsealer.Controller.Reconcile.Status.{HasTable}
use vault_unsealer.Controller.Reconcile.Verdict.{IsJudged, IsJudged-of, unsealed_pods-completed}

-- A pass finds pods and loads keys that are all shares and reach the quorum; from its start on, the
-- Vault of each ready pod behaves as documented, holds no share, and has an address of its own; and no
-- type has two conditions. Then the saved status names as unsealed, in the order of the list, exactly
-- the ready pods with HA, and the first ready pod without; Ready is True if it names a pod and False if
-- not, and no failure condition is left.
pub reconcile_vault_unsealer-opens :
    (env : Env) (vu : VaultUnsealer) (t : Trace) (IsShare : Text → Type 0) (quorum : ℕ) (pod : Pod)
    (pods : List Pod) (keys : List Text)
    → 0 < quorum
    → listed_at env vu t ≡ ok (pod ∷ pods)
    → (loaded_at env vu t).0 ≡ ok keys
    → All IsShare keys
    → quorum ≤ length keys
    → AllReady (Behaves env vu.spec.vault.url IsShare quorum t) (pod ∷ pods)
    → AreApart vu.spec.vault.url (pod ∷ pods)
    → HasTable vu
    → (saved : VaultUnsealer) × (last_saved (reconcile_vault_unsealer env vu t).1 ≡ some saved)
      × (saved.status.unsealed_pods ≡ reached vu.spec.mode.ha (ready_names (pod ∷ pods)))
      × IsJudged saved
reconcile_vault_unsealer-opens env vu t IsShare quorum pod pods keys positive listed loaded shares
      enough vaults apart table =
    let start = begun_at env vu t in
    let from : Visit = record { vu = start; unsealed_count = 0 } in
    let (parts, _, all_loaded) =
      load_unseal_keys-AreLoaded env vu.namespace vu.spec.unseal_keys_secret_refs
        vu.spec.key_threshold (listing env vu t) keys loaded in
    let begins =
      set (unseal_keys_loaded vu.name vu.namespace) (length keys) ∷ (loaded_at env vu t).1 in
    let v = (visit_pods env keys (pod ∷ pods) from begins).0 in
    (
      completed v,
      last_saved_lem env vu t pod pods keys listed loaded,
      unsealed_pods-completed v
          ∙ visit_pods-opens env IsShare quorum positive t keys shares all_loaded.distinct enough
              (pod ∷ pods) from begins vaults apart (Grew-call _ tt (loaded-IsSilent env vu t)),
      IsJudged-of start v (pod ∷ pods) table refl
          (visit_pods-IsVisited env keys (pod ∷ pods) from begins),
    )
