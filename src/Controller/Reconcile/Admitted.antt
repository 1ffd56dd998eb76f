-- ===== src/Controller/Reconcile/Admitted.antt =====
-- What the webhook guarantees to the controller.
use vault_unsealer.Prelude.{◌<◌, ◌≡◌, sym, subst, ℤ, Option, none, some, pos_part, arith}
use vault_unsealer.Text.{Text}
use vault_unsealer.Result.{Result}
use vault_unsealer.Api.{VaultUnsealer}
use vault_unsealer.Cluster.{Env, Trace}
use vault_unsealer.Controller.Reconcile.{interval_of, reconcile_vault_unsealer}
use vault_unsealer.Controller.Reconcile.Report.{reconcile_vault_unsealer-IsReported}
use vault_unsealer.Webhook.Spec.{ParsedUrl, validate_create}
use vault_unsealer.Webhook.Spec.Laws.{IsInterval, admission_iff}

interval_positive : (o : Option ℤ) → IsInterval o → 0 < pos_part (interval_of o)
interval_positive none h = omega arith
interval_positive (some d) h = h

-- A pass over an object that was admitted never asks to be run again at once: the time that it gives
-- is positive, on every branch.
pub requeue_admitted :
    (parse : Text → Result ParsedUrl) (env : Env) (vu : VaultUnsealer) (t : Trace)
    → (validate_create parse vu).refusal ≡ none
    → 0 < pos_part (reconcile_vault_unsealer env vu t).0.requeue_after
requeue_admitted parse env vu t admitted =
    let usable = (admission_iff parse vu vu).0.0 admitted in
    let reported = reconcile_vault_unsealer-IsReported env vu t in
    subst (λ d. 0 < pos_part d) (sym reported.requeued)
      (interval_positive vu.spec.interval usable.interval)
