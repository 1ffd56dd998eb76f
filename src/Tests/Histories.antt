-- ===== src/Tests/Histories.antt =====
-- Two passes over different pods and the deletion of the object, in one history.
use vault_unsealer.Prelude.{
  pos, ℕ, suc, ◌≡◌, refl, ap, ◌⊎◌, inl, inr, Bool, true, false, not, ◌&&◌, ◌||◌, [], ◌∷◌, Option,
  none, some, ltb, if◌then◌else◌, Bool-cases, arith,
}
use vault_unsealer.Text.{Text, codes, text_eq, text_eq_iff, text_eq_refl}
use vault_unsealer.Result.{ok, err}
use vault_unsealer.Api.{VaultUnsealer, NamespacedName}
use vault_unsealer.Cluster.{
  Env, Trace, ◌>>=◌, lookup, Series, get_vault_unsealer, inc, set, observe, delete,
  vault_connection_status,
}
use vault_unsealer.Controller.Reconcile.Report.{last_saved}
use vault_unsealer.Controller.Lifecycle.{reconcile, delete_pod_metrics, cleanup_metrics}
use vault_unsealer.Text.Lines.{split_lines}
use vault_unsealer.Secrets.Keys.{parse_keys}
use vault_unsealer.Secrets.Loader.{
  load_unseal_keys, collect, load_keys_from_secret, finish, add_keys, add_key,
}
use vault_unsealer.Vault.{new_client, get_seal_status}
use vault_unsealer.Controller.Pods.{is_pod_ready, visit_pods, visit_pod, check_and_unseal_pod}
use vault_unsealer.Controller.Connection.{create_vault_client}
use vault_unsealer.Controller.Reconcile.{reconcile_vault_unsealer, get_vault_pods, pass}
use vault_unsealer.Controller.History.{Reachable, booted, reconciled}
use vault_unsealer.Controller.History.Series.{IsAlive}
use vault_unsealer.Controller.History.Release.{IsLeftover, reconcile-IsLeftover}
use vault_unsealer.Tests.World.{world, unsealer, spec_of, ready_pod, seal_status}

-- A Vault that does not answer, an object whose status the API server keeps, with another pod behind
-- the first save of it and its deletion behind the second.
abbrev small : VaultUnsealer
small = record unsealer {
  name = codes "m";
  namespace = codes "v";
  spec = record (spec_of true) {
    vault = record { url = codes "http"; ca_bundle_secret_ref = none; insecure_skip_verify = true };
    key_threshold = pos 1;
  };
  status = record (unsealer.status) { pods_checked = [] };
}

abbrev gone : VaultUnsealer
gone = record small {
  deleting = true;
  status = record (small.status) { pods_checked = codes "b" ∷ [] };
}

-- the runs that began
abbrev runs : Trace → ℕ
runs [] = 0
runs (get_vault_unsealer k ∷ t) = suc (runs t)
runs (c ∷ t) = runs t

abbrev cluster : Env
cluster = record (world small) {
  get_vault_unsealer = λ t id. ok (if ltb 1 (runs t) then gone else small);
  contains_finalizer = λ l f. true;
  get_secret = λ t id. ok ((codes "keys", codes "k") ∷ []);
  read_seal_status = λ t client. err (record { message = []; not_found = false });
  list_pods = λ t namespace selector.
      ok (ready_pod (if ltb 1 (runs t) then codes "b" else codes "a") (codes "1") ∷ []);
}

abbrev id : NamespacedName
id = record { namespace = codes "v"; name = codes "m" }

abbrev two_passes : Trace
two_passes = (reconcile cluster id (reconcile cluster id []).1).1

two_passes-Reachable : Reachable cluster two_passes
two_passes-Reachable = reconciled id (reconciled id booted)

-- the gauge of a pod
abbrev gauge : Text → Series
gauge pod = vault_connection_status (codes "m") (codes "v") pod

abbrev is_gauge : Text → Series → Bool
is_gauge pod (vault_connection_status n ns p) =
    text_eq n (codes "m") && (text_eq ns (codes "v") && text_eq p pod)
is_gauge pod s = false

abbrev survives : Text → Trace → Bool
survives pod [] = false
survives pod (inc r ∷ t) = is_gauge pod r || survives pod t
survives pod (set r n ∷ t) = is_gauge pod r || survives pod t
survives pod (observe r n ∷ t) = is_gauge pod r || survives pod t
survives pod (delete r ∷ t) = not (is_gauge pod r) && survives pod t
survives pod (c ∷ t) = survives pod t

gauge_of : (pod : Text) (r : Series) → is_gauge pod r ≡ true → r ≡ gauge pod
gauge_of pod (vault_connection_status n ns p) h =
    ground (arith, text_eq_iff n (codes "m"), text_eq_iff ns (codes "v"), text_eq_iff p pod)
gauge_of pod s h = absurd (cc)

is_gauge-gauge : (pod : Text) → is_gauge pod (gauge pod) ≡ true
unfolding text_eq
is_gauge-gauge pod = text_eq_refl pod

written :
    {pod : Text} (r : Series) (t : Trace)
    → (survives pod t ≡ true → IsAlive (gauge pod) t)
    → (is_gauge pod r || survives pod t) ≡ true
    → (r ≡ gauge pod) ⊎ IsAlive (gauge pod) t
written {pod} r t older h = elim (Bool-cases (is_gauge pod r)) [
  | inl y ↦ inl (gauge_of pod r y)
  | inr n ↦ inr (older (ground arith))
]

survives-IsAlive : (pod : Text) (t : Trace) → survives pod t ≡ true → IsAlive (gauge pod) t
survives-IsAlive pod [] h = absurd (cc)
survives-IsAlive pod (inc r ∷ t) h = written r t (survives-IsAlive pod t) h
survives-IsAlive pod (set r n ∷ t) h = written r t (survives-IsAlive pod t) h
survives-IsAlive pod (observe r n ∷ t) h = written r t (survives-IsAlive pod t) h
survives-IsAlive pod (delete r ∷ t) h = elim (Bool-cases (is_gauge pod r)) [
  | inl y ↦ absurd (ground arith)
  | inr n ↦ (
    (λ e. absurd (let same = is_gauge-gauge pod in let f = ap (is_gauge pod) e in cc)),
    survives-IsAlive pod t (ground arith),
  )
]
survives-IsAlive pod (c ∷ t) h = survives-IsAlive pod t h

reconcile-IsLeftover_example : IsLeftover gone two_passes (gauge (codes "a"))
unfolding reconcile ◌>>=◌ reconcile_vault_unsealer get_vault_pods load_unseal_keys collect
    load_keys_from_secret lookup text_eq parse_keys split_lines finish add_keys add_key visit_pods
    visit_pod pass check_and_unseal_pod create_vault_client cleanup_metrics delete_pod_metrics
    is_pod_ready new_client get_seal_status
reconcile-IsLeftover_example =
    reconcile-IsLeftover cluster id two_passes gone two_passes-Reachable refl refl refl
      (gauge (codes "a")) refl
      (survives-IsAlive (codes "a") (reconcile cluster id two_passes).1 refl)

-- an API server that keeps the status, and a Vault that is not sealed
abbrev kept : Option VaultUnsealer → VaultUnsealer
kept none = small
kept (some vu) = vu

abbrev keeper : Env
keeper = record cluster {
  get_vault_unsealer = λ t id. ok (kept (last_saved t));
  read_seal_status = λ t client. ok [];
  decode_seal_status = λ body. ok (seal_status false);
}

abbrev behind : Trace
behind = (reconcile keeper id (reconcile keeper id []).1).1
