-- ===== src/Controller/Reconcile/Steady.antt =====
-- A whole pass over pods whose Vaults stay unsealed.
use vault_unsealer.Prelude.{◌≡◌, refl, ◌∙◌, List, ◌∷◌, some}
use vault_unsealer.Text.{Text}
use vault_unsealer.Result.{ok}
use vault_unsealer.Api.{VaultUnsealer}
use vault_unsealer.Cluster.{Env, Trace, Pod}
use vault_unsealer.Cluster.Grew.{Grew, Grew-call}
use vault_unsealer.Controller.Pods.{visit_pods}
use vault_unsealer.Controller.Pods.Loop.{visit_pods-IsVisited}
use vault_unsealer.Controller.Pods.Loop.Ready.{IsSilent, AllReady, ready_names, reached}
use vault_unsealer.Controller.Pods.Loop.Steady.{StaysOpen, visit_pods-steady}
use vault_unsealer.Controller.Reconcile.{completed, reconcile_vault_unsealer}
use vault_unsealer.Controller.Reconcile.Report.{last_saved, begun_at, listed_at}
use vault_unsealer.Controller.Reconcile.Full.{
  loaded_at, fresh, counted, loaded-IsSilent, last_saved_lem, IsSilent-reconcile_vault_unsealer,
}
use vault_unsealer.Controller.Reconcile.Status.{HasTable}
use vault_unsealer.Controller.Reconcile.Verdict.{IsJudged, IsJudged-of, unsealed_pods-completed}

-- A pass finds pods and loads keys, from its start on the Vault of each ready pod says that it is not
-- sealed as long as no key is submitted, and no type has two conditions. Then the pass submits no key, and the saved status names as
-- unsealed, in the order of the list, the ready pods with HA, and the first ready pod without; Ready is
-- True if it names a pod and False if not, and no failure condition is left.
pub reconcile_vault_unsealer-steady :
    (env : Env) (vu : VaultUnsealer) (t : Trace) (pod : Pod) (pods : List Pod) (keys : List Text)
    → listed_at env vu t ≡ ok (pod ∷ pods)
    → (loaded_at env vu t).0 ≡ ok keys
    → AllReady (StaysOpen env vu.spec.vault.url t) (pod ∷ pods)
    → HasTable vu
    → Grew IsSilent t (reconcile_vault_unsealer env vu t).1
      × ((saved : VaultUnsealer) × (last_saved (reconcile_vault_unsealer env vu t).1 ≡ some saved)
          × (saved.status.unsealed_pods ≡ reached vu.spec.mode.ha (ready_names (pod ∷ pods)))
          × IsJudged saved)
reconcile_vault_unsealer-steady env vu t pod pods keys listed loaded vaults table =
    let start = begun_at env vu t in
    let from = fresh env start in
    let begins = counted env vu keys (loaded_at env vu t).1 in
    let v = (visit_pods env keys (pod ∷ pods) from begins).0 in
    let (names, silent) =
      visit_pods-steady env keys t (pod ∷ pods) from begins
        (Grew-call _ tt (loaded-IsSilent env vu t)) vaults in
    (
      IsSilent-reconcile_vault_unsealer env vu t t pod pods keys listed loaded silent,
      (
        completed v,
        last_saved_lem env vu t pod pods keys listed loaded,
        unsealed_pods-completed v ∙ names,
        IsJudged-of start v (pod ∷ pods) table refl
            (visit_pods-IsVisited env keys (pod ∷ pods) from begins),
      ),
    )
