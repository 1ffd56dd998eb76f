-- ===== src/Tests/Passes.antt =====
-- Whole passes and their parts over the small cluster.
use mathlib.Core.List.{Memᴰ}
use vault_unsealer.Prelude.{◌+◌, ◌≡◌, refl, inl, List, [], ◌∷◌, ◌++◌, some, All}
use vault_unsealer.Text.{Text, codes}
use vault_unsealer.Result.{ok}
use vault_unsealer.Api.{VaultUnsealer, NamespacedName}
use vault_unsealer.Cluster.{Env, Trace, ApiConfig, absent, unseal_attempts, delete}
use vault_unsealer.Cluster.Emits.{Emits}
use vault_unsealer.Controller.Pods.{Visit, submit_keys, visit_pods}
use vault_unsealer.Controller.Pods.Submission.{Ends, submit_keys-Ends}
use vault_unsealer.Controller.Pods.Loop.Calls.{IsLoopCall, visit_pods-Emits}
use vault_unsealer.Controller.Pods.Loop.Guarantees.{IsRun, visit_pods-IsRun}
use vault_unsealer.Controller.Reconcile.{reconcile_vault_unsealer}
use vault_unsealer.Controller.Reconcile.Calls.{count_saves, count_saves-reconcile_vault_unsealer}
use vault_unsealer.Controller.Reconcile.Report.{last_saved, listed_at, loading_at}
use vault_unsealer.Controller.Reconcile.Status.{HasTable}
use vault_unsealer.Controller.Reconcile.Verdict.{IsTold, reconcile_vault_unsealer-verdict}
use vault_unsealer.Controller.Lifecycle.{cleanup_metrics, reconcile}
use vault_unsealer.Controller.Lifecycle.Laws.{IsLifecycleCall, reconcile_idle}
use vault_unsealer.Controller.Lifecycle.Cleanup.{cleanup_metrics_complete}
use vault_unsealer.Tests.World.{world, unsealer, dying_unsealer, pods}

abbrev cluster : Env
cluster = world unsealer

abbrev two_keys : List Text
two_keys = codes "alpha" ∷ codes "beta" ∷ []

abbrev client : ApiConfig
client = record { address = codes "http://10.0.0.1:8200"; transport = absent }

abbrev start : Visit
start = record { vu = unsealer; unsealed_count = 0 }

submit_keys-Ends_example :
    Ends cluster client two_keys []
      (submit_keys cluster client two_keys []).1
      (submit_keys cluster client two_keys []).0
submit_keys-Ends_example = submit_keys-Ends cluster client two_keys []

visit_pods-Emits_example :
    Emits (IsLoopCall unsealer.spec.vault two_keys pods) (visit_pods cluster two_keys pods start)
visit_pods-Emits_example = visit_pods-Emits cluster two_keys pods start

visit_pods-IsRun_example : IsRun start (visit_pods cluster two_keys pods start []).0 pods
visit_pods-IsRun_example = visit_pods-IsRun cluster two_keys pods start []

count_saves-reconcile_vault_unsealer_example :
    count_saves (reconcile_vault_unsealer cluster unsealer []).1 ≡ 1 + count_saves []
count_saves-reconcile_vault_unsealer_example =
    count_saves-reconcile_vault_unsealer cluster unsealer []

reconcile_vault_unsealer-verdict_example :
    (saved : VaultUnsealer) × (last_saved (reconcile_vault_unsealer cluster unsealer []).1
      ≡ some saved)
    × HasTable saved
    × IsTold (listed_at cluster unsealer []) (loading_at cluster unsealer []).0 unsealer saved
reconcile_vault_unsealer-verdict_example = reconcile_vault_unsealer-verdict cluster unsealer [] tt

abbrev id : NamespacedName
id = record { namespace = codes "vault"; name = codes "main" }

reconcile_idle_example :
    (new : Trace) × ((reconcile (world dying_unsealer) id []).1 ≡ new ++ [])
    × All (IsLifecycleCall (world dying_unsealer) (ok dying_unsealer)) new
reconcile_idle_example = reconcile_idle (world dying_unsealer) id [] (λ live. cc)

cleanup_metrics_complete_example :
    Memᴰ
      (delete (unseal_attempts (codes "main") (codes "vault") (codes "vault-0") (codes "success")))
      (cleanup_metrics unsealer []).1
cleanup_metrics_complete_example =
    cleanup_metrics_complete unsealer []
      (unseal_attempts (codes "main") (codes "vault") (codes "vault-0") (codes "success"))
      (refl, refl, Memᴰ.head refl, inl refl)
