-- ===== src/Tests/Opened.antt =====
-- A whole pass over pods whose Vaults open at two different shares.
use vault_unsealer.Cluster.{Trace}
use vault_unsealer.Controller.Reconcile.Settled.{reconcile_vault_unsealer-settles}
use vault_unsealer.Cluster.Grew.{Grew, Grew-refl}
use vault_unsealer.Result.{ok}
use vault_unsealer.Cluster.{Env}
use vault_unsealer.Prelude.{false}
use vault_unsealer.Tests.World.{world}
use vault_unsealer.Controller.Pods.Loop.Ready.{IsSilent}
use vault_unsealer.Controller.Pods.Loop.Steady.{StaysOpen}
use vault_unsealer.Controller.Reconcile.Steady.{reconcile_vault_unsealer-steady}
use vault_unsealer.Prelude.{◌≡◌, refl, ap, ◌∙◌, some, [], ◌∷◌, ◌++◌, ltb, arith}
use vault_unsealer.Text.{Text, codes, text_eq}
use vault_unsealer.Cluster.{◌>>=◌, pure, perform, Pod}
use vault_unsealer.Vault.{get_seal_status}
use vault_unsealer.Controller.Connection.{vault_url}
use vault_unsealer.Secrets.Loader.{
  load_unseal_keys, collect, load_keys_from_secret, finish, add_keys, add_key,
}
use vault_unsealer.Secrets.Keys.{parse_keys}
use vault_unsealer.Text.Lines.{split_lines}
use vault_unsealer.Controller.Pods.Quorum.{submitted, progress}
use vault_unsealer.Api.{VaultUnsealer}
use vault_unsealer.Controller.Pods.Behaviour.{Behaves}
use vault_unsealer.Controller.Pods.Loop.Opened.{AreApart}
use vault_unsealer.Controller.Reconcile.{reconcile_vault_unsealer, get_vault_pods}
use vault_unsealer.Cluster.{lookup}
use vault_unsealer.Controller.Pods.{is_pod_ready}
use vault_unsealer.Tests.Shares.{vault, vault-OpensAt, submitted_later, said, two_keys, differ}
use vault_unsealer.Controller.Reconcile.Report.{last_saved}
use vault_unsealer.Controller.Reconcile.Verdict.{IsJudged}
use vault_unsealer.Controller.Reconcile.Opened.{reconcile_vault_unsealer-opens}
use vault_unsealer.Prelude.{some}
use vault_unsealer.Tests.World.{pods, starting_pod, unsealer, ready_pod, seal_status}

vault-Behaves : (url : Text) (pod : Pod) → Behaves vault url (λ k. Unit) 2 [] pod
unfolding get_seal_status ◌>>=◌ pure perform submitted
vault-Behaves url pod = record {
  connects = λ t config same. refl;
  reports = λ client new same shares. (
    seal_status _,
    refl,
    said _
        ∙ ap (λ a. ltb (progress (submitted a (new ++ []))) 2) same
        ∙ ap (λ l. ltb (progress l) 2) (submitted_later (vault_url pod.pod_ip url) new [] refl),
  );
  opens = vault-OpensAt (vault_url pod.pod_ip url) [] refl;
}

pods-AreApart : AreApart unsealer.spec.vault.url pods
unfolding text_eq vault_url
pods-AreApart = (
  (λ ready. ((λ r. differ refl), ((λ r. differ refl), tt))),
  ((λ ready. ((λ r. differ refl), tt)), ((λ ready. tt), tt)),
)

reconcile_vault_unsealer-opens_example :
    (saved : VaultUnsealer) × (last_saved (reconcile_vault_unsealer vault unsealer []).1
      ≡ some saved)
    × (saved.status.unsealed_pods ≡ codes "vault-0" ∷ codes "vault-2" ∷ [])
    × IsJudged saved
unfolding load_unseal_keys get_vault_pods perform ◌>>=◌ collect load_keys_from_secret lookup text_eq
    parse_keys split_lines finish add_keys add_key is_pod_ready
reconcile_vault_unsealer-opens_example =
    reconcile_vault_unsealer-opens vault unsealer [] (λ k. Unit) 2
      (ready_pod (codes "vault-0") (codes "10.0.0.1"))
      (starting_pod ∷ ready_pod (codes "vault-2") (codes "10.0.0.3") ∷ []) two_keys (omega arith)
      refl refl (tt, (tt, tt)) (omega arith)
      (
        (λ ready. vault-Behaves unsealer.spec.vault.url _),
        (
          (λ ready. vault-Behaves unsealer.spec.vault.url _),
          ((λ ready. vault-Behaves unsealer.spec.vault.url _), tt),
        ),
      )
      pods-AreApart tt

-- The history behind the pass.
abbrev opened : Trace
opened = (reconcile_vault_unsealer vault unsealer []).1

reconcile_vault_unsealer-settles_example :
    Grew IsSilent opened (reconcile_vault_unsealer vault unsealer opened).1
    × ((saved : VaultUnsealer) × (last_saved (reconcile_vault_unsealer vault unsealer opened).1
          ≡ some saved)
        × (saved.status.unsealed_pods ≡ codes "vault-0" ∷ codes "vault-2" ∷ [])
        × IsJudged saved)
unfolding load_unseal_keys get_vault_pods perform ◌>>=◌ collect load_keys_from_secret lookup text_eq
    parse_keys split_lines finish add_keys add_key is_pod_ready
reconcile_vault_unsealer-settles_example =
    reconcile_vault_unsealer-settles vault unsealer [] (λ k. Unit) 2
      (ready_pod (codes "vault-0") (codes "10.0.0.1"))
      (starting_pod ∷ ready_pod (codes "vault-2") (codes "10.0.0.3") ∷ []) two_keys unsealer opened
      two_keys (omega arith) refl refl refl (tt, (tt, tt)) (omega arith)
      (
        (λ ready. vault-Behaves unsealer.spec.vault.url _),
        (
          (λ ready. vault-Behaves unsealer.spec.vault.url _),
          ((λ ready. vault-Behaves unsealer.spec.vault.url _), tt),
        ),
      )
      pods-AreApart Grew-refl refl tt refl refl

-- The same cluster, where every Vault is open.
abbrev open_cluster : Env
open_cluster = record (world unsealer) { read_seal_status = λ t client. ok (codes "open") }

open_cluster-StaysOpen : (url : Text) (pod : Pod) → StaysOpen open_cluster url [] pod
unfolding get_seal_status ◌>>=◌ pure perform text_eq
open_cluster-StaysOpen url pod = record {
  connects = λ t config same. refl;
  reports = λ client new same silent. (seal_status false, refl, refl);
}

reconcile_vault_unsealer-steady_example :
    Grew IsSilent [] (reconcile_vault_unsealer open_cluster unsealer []).1
    × ((saved : VaultUnsealer) × (last_saved (reconcile_vault_unsealer open_cluster unsealer []).1
          ≡ some saved)
        × (saved.status.unsealed_pods ≡ codes "vault-0" ∷ codes "vault-2" ∷ [])
        × IsJudged saved)
unfolding load_unseal_keys get_vault_pods perform ◌>>=◌ collect load_keys_from_secret lookup text_eq
    parse_keys split_lines finish add_keys add_key is_pod_ready
reconcile_vault_unsealer-steady_example =
    reconcile_vault_unsealer-steady open_cluster unsealer []
      (ready_pod (codes "vault-0") (codes "10.0.0.1"))
      (starting_pod ∷ ready_pod (codes "vault-2") (codes "10.0.0.3") ∷ []) two_keys refl refl
      (
        (λ ready. open_cluster-StaysOpen unsealer.spec.vault.url _),
        (
          (λ ready. open_cluster-StaysOpen unsealer.spec.vault.url _),
          ((λ ready. open_cluster-StaysOpen unsealer.spec.vault.url _), tt),
        ),
      )
      tt
