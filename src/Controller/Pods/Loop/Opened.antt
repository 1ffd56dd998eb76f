-- ===== src/Controller/Pods/Loop/Opened.antt =====
-- The loop over pods whose Vaults behave as documented and have different addresses.
use vault_unsealer.Prelude.{
  ℕ, ◌<◌, ◌≤◌, ◌≡◌, ◌≢◌, sym, ap, subst, ◌∙◌, true, false, List, [], ◌∷◌, ◌++◌, append_assoc,
  length, All, IsDistinct,
}
use vault_unsealer.Text.{Text, codes}
use vault_unsealer.Result.{ok}
use vault_unsealer.Api.{VaultConnectionSpec}
use vault_unsealer.Cluster.{
  Env, Call, Trace, Pod, inc, set, unseal_attempts, vault_connection_status, write_unseal,
}
use vault_unsealer.Cluster.Emits.{All-mono}
use vault_unsealer.Cluster.Grew.{Grew}
use vault_unsealer.Controller.Connection.{vault_url}
use vault_unsealer.Controller.Pods.{Visit, checked, is_pod_ready, check_and_unseal_pod, visit_pods}
use vault_unsealer.Controller.Pods.Quorum.{submitted}
use vault_unsealer.Controller.Pods.Unsealing.{IsPodCall, check_and_unseal_pod-Emits}
use vault_unsealer.Controller.Pods.Loop.Ready.{
  IsSilent, AllReady, ready_names, reached, Opening, visit_pods-Named,
}
use vault_unsealer.Controller.Pods.Behaviour.{IsQuiet, submitted-append, submitted-quiet, Behaves}
use vault_unsealer.Controller.Pods.Opening.{check_and_unseal_pod-opens}

-- Different pods that are ready have different addresses at the URL.
abbrev pub AreApart : Text → List Pod → Type 0
AreApart url [] = Unit
AreApart url (pod ∷ pods) =
    (is_pod_ready pod ≡ true
      → AllReady (λ q. vault_url pod.pod_ip url ≢ vault_url q.pod_ip url) pods)
    × AreApart url pods

-- The calls of one pod's check submit nothing to another address.
pub IsQuiet-of_IsPodCall :
    (vault : VaultConnectionSpec) (keys : List Text) (address other : Text)
    → address ≢ other
    → (c : Call) → IsPodCall vault keys address c
    → IsQuiet other c
IsQuiet-of_IsPodCall vault keys address other apart (write_unseal client key) h =
    λ same. apart (sym h.0 ∙ same)
IsQuiet-of_IsPodCall vault keys address other apart c h = tt

pub IsQuiet-of_IsSilent : (address : Text) (c : Call) → IsSilent c → IsQuiet address c
IsQuiet-of_IsSilent address (write_unseal client key) h = absurd h
IsQuiet-of_IsSilent address c h = tt

-- Nothing was submitted to a ready pod.
abbrev pub Untouched : Text → Trace → List Pod → Type 0
Untouched url new = AllReady (λ pod. submitted (vault_url pod.pod_ip url) new ≡ [])

pub Untouched-later :
    (keys : List Text) (vault : VaultConnectionSpec) (address : Text) (more new : Trace)
    (pods : List Pod)
    → All (IsPodCall vault keys address) more
    → AllReady (λ q. address ≢ vault_url q.pod_ip vault.url) pods
    → Untouched vault.url new pods
    → Untouched vault.url (more ++ new) pods
Untouched-later keys vault address more new [] calls apart before = tt
Untouched-later keys vault address more new (q ∷ pods) calls apart before = (
  λ ready.
      let other = vault_url q.pod_ip vault.url in
      submitted-append other more new
      ∙ ap (λ l. l ++ submitted other new)
          (submitted-quiet other more
            (All-mono (IsQuiet-of_IsPodCall vault keys address other (apart.0 ready)) more calls))
      ∙ before.0 ready,
  Untouched-later keys vault address more new pods calls apart.1 before.1,
)

pub Untouched-of_silent :
    (url : Text) (new : Trace) (pods : List Pod) → All IsSilent new → Untouched url new pods
Untouched-of_silent url new [] silent = tt
Untouched-of_silent url new (pod ∷ pods) silent = (
  λ ready. submitted-quiet _ new (All-mono (IsQuiet-of_IsSilent _) new silent),
  Untouched-of_silent url new pods silent,
)

module _ (env : Env) (IsShare : Text → Type 0) (quorum : ℕ) (positive : 0 < quorum) (start : Trace)
    (keys : List Text) (shares : All IsShare keys) (distinct : IsDistinct keys)
    (enough : quorum ≤ length keys) where
  -- Behind `start`, the pods that are left behave, are apart, and got no key.
  Left : VaultConnectionSpec → Trace → List Pod → Type 0
  Left vault t pods =
      (new : Trace) × (t ≡ new ++ start)
      × AllReady (Behaves env vault.url IsShare quorum start) pods
      × AreApart vault.url pods
      × Untouched vault.url new pods

  Left-Opening : Opening env keys Left
  unfolding Left submitted
  Left-Opening = record {
    opens = λ pod pods v t ready (new, e, vaults, apart, quiet).
        subst (λ u. (check_and_unseal_pod env pod (checked pod v).vu keys u).0 ≡ ok false) (sym e)
          (check_and_unseal_pod-opens env IsShare quorum positive start keys shares distinct enough
            pod (checked pod v).vu new (vaults.0 ready) (quiet.0 ready));
    later = λ pod pods v t ready (new, e, vaults, apart, quiet).
        let (more, e', calls) = (check_and_unseal_pod-Emits env (checked pod v).vu pod keys).at t in
        let connected = set (vault_connection_status v.vu.name v.vu.namespace pod.name) 1 in
        let counted = inc (unseal_attempts v.vu.name v.vu.namespace pod.name (codes "success")) in
        (
          connected ∷ counted ∷ more ++ new,
          ap (λ u. connected ∷ counted ∷ u)
              (e' ∙ ap (λ u. more ++ u) e ∙ sym (append_assoc more new start)),
          vaults.1,
          apart.1,
          Untouched-later keys v.vu.spec.vault (vault_url pod.pod_ip v.vu.spec.vault.url) more new
              pods calls (apart.0 ready) quiet.1,
        );
    fewer = λ vault pod pods t (new, e, vaults, apart, quiet). (new, e, vaults.1, apart.1, quiet.1);
  }

  -- Behind calls that submit no key, the loop counts as unsealed the ready pods, in order, that it
  -- comes to.
  pub visit_pods-opens :
      (pods : List Pod) (v : Visit) (u : Trace)
      → AllReady (Behaves env v.vu.spec.vault.url IsShare quorum start) pods
      → AreApart v.vu.spec.vault.url pods
      → Grew IsSilent start u
      → (visit_pods env keys pods v u).0.vu.status.unsealed_pods
        ≡ v.vu.status.unsealed_pods ++ reached v.vu.spec.mode.ha (ready_names pods)
  unfolding Left
  visit_pods-opens pods v u vaults apart (new, e, silent) =
      (visit_pods-Named env keys Left Left-Opening pods v u
        (new, e, vaults, apart, Untouched-of_silent _ new pods silent)).0
