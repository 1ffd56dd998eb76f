-- ===== src/Controller/Pods/Loop/Settled.antt =====
-- What the loop leaves at the Vaults that it opened, with HA.
use mathlib.Core.List.{append_cancel_right}
use vault_unsealer.Prelude.{
  ℕ, ◌<◌, ◌≤◌, ◌≡◌, ◌≢◌, refl, sym, ap, subst, ◌∙◌, true, false, Bool-cases, inl, inr, List, [],
  ◌∷◌, ◌++◌, append_assoc, length, All, IsDistinct,
}
use vault_unsealer.Text.{Text, codes}
use vault_unsealer.Cluster.{
  Env, Trace, Pod, inc, set, unseal_attempts, vault_connection_status, pure,
}
use vault_unsealer.Cluster.Emits.{All-mono}
use vault_unsealer.Controller.Connection.{vault_url}
use vault_unsealer.Controller.Pods.{Visit, checked, unsealed, is_pod_ready, visit_pods}
use vault_unsealer.Controller.Pods.Quorum.{submitted, progress}
use vault_unsealer.Controller.Pods.Unsealing.{check_and_unseal_pod-Emits}
use vault_unsealer.Controller.Pods.Loop.Ready.{AllReady, visit_open, visit_closed, visit_pods_next}
use vault_unsealer.Controller.Pods.Loop.Opened.{
  AreApart, Untouched, Untouched-later, IsQuiet-of_IsPodCall,
}
use vault_unsealer.Controller.Pods.Behaviour.{submitted-append, submitted-quiet, Behaves, Holds}
use vault_unsealer.Controller.Pods.Opening.{check_and_unseal_pod-opens, check_and_unseal_pod-Holds}

module _ (env : Env) (IsShare : Text → Type 0) (quorum : ℕ) (positive : 0 < quorum) (start : Trace)
    (keys : List Text) (shares : All IsShare keys) (distinct : IsDistinct keys)
    (enough : quorum ≤ length keys) where
  -- Calls were added that submit nothing beside to the ready pods, and each of these holds a quorum.
  pub record Settled (url : Text) (pods : List Pod) (new : Trace) (t : Trace) : Type 0 where
    pub more : Trace
    pub same : t ≡ (more ++ new) ++ start
    pub quiet : (a : Text) → AllReady (λ q. vault_url q.pod_ip url ≢ a) pods → submitted a more ≡ []
    pub holds : AllReady (λ q. Holds IsShare quorum (vault_url q.pod_ip url) (more ++ new)) pods

  Holds-later :
      (a : Text) (more new : Trace)
      → submitted a more ≡ []
      → Holds IsShare quorum a new
      → Holds IsShare quorum a (more ++ new)
  Holds-later a more new quiet h =
      let e = sym (submitted-append a more new ∙ ap (λ l. l ++ submitted a new) quiet) in
      record {
        shares = subst (All IsShare) e h.shares;
        reached = subst (λ l. quorum ≤ progress l) e h.reached;
      }

  flip :
      (url a : Text) (pods : List Pod)
      → AllReady (λ q. a ≢ vault_url q.pod_ip url) pods
      → AllReady (λ q. vault_url q.pod_ip url ≢ a) pods
  flip url a [] h = tt
  flip url a (q ∷ pods) h = (λ ready same. h.0 ready (sym same), flip url a pods h.1)

  -- A ready pod in front: its check, and the loop over the others.
  Settled-opened :
      (url : Text) (pod : Pod) (pods : List Pod) (calls new t' : Trace)
      → Holds IsShare quorum (vault_url pod.pod_ip url) (calls ++ new)
      → ((a : Text) → vault_url pod.pod_ip url ≢ a → submitted a calls ≡ [])
      → AllReady (λ q. vault_url pod.pod_ip url ≢ vault_url q.pod_ip url) pods
      → is_pod_ready pod ≡ true
      → Settled url pods (calls ++ new) t'
      → Settled url (pod ∷ pods) new t'
  Settled-opened url pod pods calls new t' held quiet apart ready r = record {
    more = r.more ++ calls;
    same = r.same ∙ ap (λ l. l ++ start) (sym (append_assoc r.more calls new));
    quiet = λ a away.
        submitted-append a r.more calls
        ∙ ap (λ l. l ++ submitted a calls) (r.quiet a away.1)
        ∙ quiet a (away.0 ready);
    holds = (
      λ y.
          subst (Holds IsShare quorum (vault_url pod.pod_ip url))
            (sym (append_assoc r.more calls new))
            (Holds-later (vault_url pod.pod_ip url) r.more (calls ++ new)
              (r.quiet (vault_url pod.pod_ip url) (flip url (vault_url pod.pod_ip url) pods apart))
              held),
      subst (λ l. AllReady (λ q. Holds IsShare quorum (vault_url q.pod_ip url) l) pods)
          (sym (append_assoc r.more calls new)) r.holds,
    );
  }

  Settled-closed :
      (url : Text) (pod : Pod) (pods : List Pod) (new t' : Trace)
      → is_pod_ready pod ≡ false
      → Settled url pods new t'
      → Settled url (pod ∷ pods) new t'
  Settled-closed url pod pods new t' out r = record {
    more = r.more;
    same = r.same;
    quiet = λ a away. r.quiet a away.1;
    holds = (λ ready. absurd (let e : true ≡ false = sym ready ∙ out in cc), r.holds);
  }

  -- With HA, the loop over pods that got no key leaves a quorum of shares at each ready pod.
  pub visit_pods-Settled :
      (pods : List Pod) (v : Visit) (new : Trace)
      → v.vu.spec.mode.ha ≡ true
      → AllReady (Behaves env v.vu.spec.vault.url IsShare quorum start) pods
      → AreApart v.vu.spec.vault.url pods
      → Untouched v.vu.spec.vault.url new pods
      → Settled v.vu.spec.vault.url pods new (visit_pods env keys pods v (new ++ start)).1
  unfolding visit_pods pure submitted
  visit_pods-Settled [] v new on vaults apart quiet = record {
    more = [];
    same = refl;
    quiet = λ a away. refl;
    holds = tt;
  }
  visit_pods-Settled (pod ∷ pods) v new on vaults apart quiet =
      let t = new ++ start in
      let url = v.vu.spec.vault.url in
      let address = vault_url pod.pod_ip url in
      elim (Bool-cases (is_pod_ready pod)) [
        | inr out ↦
            subst (λ p. Settled url (pod ∷ pods) new p.1)
              (sym (
                visit_pods_next env keys pod pods v (checked pod v) t t true
                  (visit_closed env keys pod v t out) refl))
              (Settled-closed url pod pods new _ out
                (visit_pods-Settled pods (checked pod v) new on vaults.1 apart.1 quiet.1))
        | inl ready ↦
            let opened = unsealed pod (checked pod v) in
            let opens =
              check_and_unseal_pod-opens env IsShare quorum positive start keys shares distinct
                enough pod (checked pod v).vu new (vaults.0 ready) (quiet.0 ready) in
            let (held, e', got) =
              check_and_unseal_pod-Holds env IsShare quorum positive start keys shares distinct
                enough pod (checked pod v).vu new (vaults.0 ready) (quiet.0 ready) in
            let (asked, e, calls) =
              (check_and_unseal_pod-Emits env (checked pod v).vu pod keys).at t in
            let reached = e ∙ sym (append_assoc asked new start) in
            let same = append_cancel_right held (asked ++ new) start (sym e' ∙ reached) in
            let marks =
              set (vault_connection_status v.vu.name v.vu.namespace pod.name) 1
              ∷ inc (unseal_attempts v.vu.name v.vu.namespace pod.name (codes "success"))
              ∷ [] in
            let next =
              visit_pods_next env keys pod pods v opened t _ _
                (visit_open env keys pod v t ready opens) on
              ∙ ap (λ u. visit_pods env keys pods opened (marks ++ u)) reached in
            subst (λ p. Settled url (pod ∷ pods) new p.1) (sym next)
              (Settled-opened url pod pods (marks ++ asked) new _
                (Holds-later address marks (asked ++ new) refl
                  (subst (Holds IsShare quorum address) same got))
                (λ a away.
                  submitted-quiet a asked (
                    All-mono (IsQuiet-of_IsPodCall v.vu.spec.vault keys address a away) asked
                      calls))
                (apart.0 ready) ready
                (visit_pods-Settled pods opened (marks ++ asked ++ new) on vaults.1 apart.1 (
                  Untouched-later keys v.vu.spec.vault address asked new pods calls (apart.0 ready)
                    quiet.1)))
      ]
