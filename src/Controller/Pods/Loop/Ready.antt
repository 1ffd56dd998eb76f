-- ===== src/Controller/Pods/Loop/Ready.antt =====
-- Loops over pods in which every check of a ready pod ends with "unsealed".
use vault_unsealer.Prelude.{
  ◌≡◌, refl, sym, ap, subst, ◌∙◌, Bool, true, false, Bool-cases, inl, inr, List, [], ◌∷◌, ◌++◌,
  append-nil, append_assoc, All, if◌then◌else◌,
}
use vault_unsealer.Text.{Text, codes}
use vault_unsealer.Result.{ok}
use vault_unsealer.Api.{VaultConnectionSpec}
use vault_unsealer.Cluster.{
  Env, Call, Trace, write_unseal, ◌>>=◌, pure, Pod, inc, set, unseal_attempts,
  vault_connection_status,
}
use vault_unsealer.Controller.Pods.{
  Visit, checked, unsealed, is_pod_ready, after_check, proceed, check_and_unseal_pod, visit_pod,
  visit_pods,
}

-- The names of the ready pods, in order.
abbrev pub ready_names : List Pod → List Text
ready_names [] = []
ready_names (pod ∷ pods) =
    let rest = ready_names pods in if is_pod_ready pod then pod.name ∷ rest else rest

ready_names_open :
    (pod : Pod) (pods : List Pod)
    → is_pod_ready pod ≡ true
    → pod.name ∷ ready_names pods ≡ ready_names (pod ∷ pods)
ready_names_open pod pods ready = rw ready refl

ready_names_closed :
    (pod : Pod) (pods : List Pod)
    → is_pod_ready pod ≡ false
    → ready_names pods ≡ ready_names (pod ∷ pods)
ready_names_closed pod pods out = rw out refl

-- Of the names, those that the loop comes to: all with HA, and the first without.
abbrev pub reached : Bool → List Text → List Text
reached true names = names
reached false [] = []
reached false (n ∷ names) = n ∷ []

reached_all :
    (ha : Bool) (n : Text) (names : List Text)
    → ha ≡ true
    → n ∷ reached ha names ≡ reached ha (n ∷ names)
reached_all ha n names on = rw on refl

reached_first :
    (ha : Bool) (n : Text) (names : List Text) → ha ≡ false → n ∷ [] ≡ reached ha (n ∷ names)
reached_first ha n names off = rw off refl

reached_none : (ha : Bool) → [] ≡ reached ha []
reached_none true = refl
reached_none false = refl

-- Something of every pod that is ready.
abbrev pub AllReady : (Pod → Type 0) → List Pod → Type 0
AllReady P = All (λ pod. is_pod_ready pod ≡ true → P pod)

-- No key is submitted.
abbrev pub IsSilent : Call → Type 0
IsSilent (write_unseal client key) = ⊥
IsSilent c = Unit

module _ (env : Env) (keys : List Text) where
  -- the history behind the visit of a ready pod whose check ends with "unsealed"
  abbrev pub opened_at : Pod → Visit → Trace → Trace
  opened_at pod v t =
      set (vault_connection_status v.vu.name v.vu.namespace pod.name) 1
      ∷ inc (unseal_attempts v.vu.name v.vu.namespace pod.name (codes "success"))
      ∷ (check_and_unseal_pod env pod (checked pod v).vu keys t).1

  -- a visit of a ready pod whose check ends with "unsealed"
  pub visit_open :
      (pod : Pod) (v : Visit) (t : Trace)
      → is_pod_ready pod ≡ true
      → (check_and_unseal_pod env pod (checked pod v).vu keys t).0 ≡ ok false
      → visit_pod env keys pod v t ≡ (
        (unsealed pod (checked pod v), v.vu.spec.mode.ha),
        set (vault_connection_status v.vu.name v.vu.namespace pod.name) 1
            ∷ inc (unseal_attempts v.vu.name v.vu.namespace pod.name (codes "success"))
            ∷ (check_and_unseal_pod env pod (checked pod v).vu keys t).1,
      )
  unfolding visit_pod after_check ◌>>=◌ pure
  visit_open pod v t ready opens = rw ready (
      ap
        (λ r.
          after_check env pod (checked pod v) r
            (check_and_unseal_pod env pod (checked pod v).vu keys t).1)
        opens)

  -- a visit of a pod that is not ready
  pub visit_closed :
      (pod : Pod) (v : Visit) (t : Trace)
      → is_pod_ready pod ≡ false
      → visit_pod env keys pod v t ≡ ((checked pod v, true), t)
  unfolding visit_pod pure
  visit_closed pod v t out = rw out refl

  pub visit_pods_next :
      (pod : Pod) (pods : List Pod) (v w : Visit) (t t' : Trace) (more : Bool)
      → visit_pod env keys pod v t ≡ ((w, more), t')
      → more ≡ true
      → visit_pods env keys (pod ∷ pods) v t ≡ visit_pods env keys pods w t'
  unfolding visit_pods proceed ◌>>=◌ pure
  visit_pods_next pod pods v w t t' more e on =
      ap (λ r. proceed r.0 (visit_pods env keys pods) r.1) e
      ∙ ap (λ b. proceed (w, b) (visit_pods env keys pods) t') on

  visit_pods_last :
      (pod : Pod) (pods : List Pod) (v w : Visit) (t t' : Trace) (more : Bool)
      → visit_pod env keys pod v t ≡ ((w, more), t')
      → more ≡ false
      → visit_pods env keys (pod ∷ pods) v t ≡ (w, t')
  unfolding visit_pods proceed ◌>>=◌ pure
  visit_pods_last pod pods v w t t' more e off =
      ap (λ r. proceed r.0 (visit_pods env keys pods) r.1) e
      ∙ ap (λ b. proceed (w, b) (visit_pods env keys pods) t') off

  -- What holds of the history before each visit, of the pods that are left: it makes the check of a
  -- ready pod end with "unsealed", and it still holds behind that visit, and of fewer pods.
  pub record Opening (Inv : VaultConnectionSpec → Trace → List Pod → Type 0) : Type 0 where
    pub opens :
        (pod : Pod) (pods : List Pod) (v : Visit) (t : Trace)
        → is_pod_ready pod ≡ true
        → Inv v.vu.spec.vault t (pod ∷ pods)
        → (check_and_unseal_pod env pod (checked pod v).vu keys t).0 ≡ ok false
    pub later :
        (pod : Pod) (pods : List Pod) (v : Visit) (t : Trace)
        → is_pod_ready pod ≡ true
        → Inv v.vu.spec.vault t (pod ∷ pods)
        → Inv v.vu.spec.vault (opened_at pod v t) pods
    pub fewer :
        (vault : VaultConnectionSpec) (pod : Pod) (pods : List Pod) (t : Trace)
        → Inv vault t (pod ∷ pods)
        → Inv vault t pods

  module _ (Inv : VaultConnectionSpec → Trace → List Pod → Type 0) (opening : Opening Inv) where
    -- The loop from `v` named the ready pods that it came to, and left `Inv` of some pods.
    abbrev pub Named : Visit → List Pod → Visit × Trace → Type 0
    Named v pods p =
        (p.0.vu.status.unsealed_pods
          ≡ v.vu.status.unsealed_pods ++ reached v.vu.spec.mode.ha (ready_names pods))
        × ((rest : List Pod) × Inv v.vu.spec.vault p.1 rest)

    pub visit_pods-Named :
        (pods : List Pod) (v : Visit) (t : Trace)
        → Inv v.vu.spec.vault t pods
        → Named v pods (visit_pods env keys pods v t)
    unfolding visit_pods pure
    visit_pods-Named [] v t inv = (
      sym (append-nil v.vu.status.unsealed_pods)
          ∙ ap (λ l. v.vu.status.unsealed_pods ++ l) (reached_none v.vu.spec.mode.ha),
      ([], inv),
    )
    visit_pods-Named (pod ∷ pods) v t inv =
        let ha = v.vu.spec.mode.ha in
        let before = v.vu.status.unsealed_pods in
        elim (Bool-cases (is_pod_ready pod)) [
          | inr out ↦
              let (names, left) =
                visit_pods-Named pods (checked pod v) t
                  (opening.fewer v.vu.spec.vault pod pods t inv) in
              subst (Named v (pod ∷ pods))
                (sym (
                  visit_pods_next pod pods v (checked pod v) t t true (visit_closed pod v t out)
                    refl))
                (names ∙ ap (λ l. before ++ reached ha l) (ready_names_closed pod pods out), left)
          | inl ready ↦
              let opened = unsealed pod (checked pod v) in
              let opens = visit_open pod v t ready (opening.opens pod pods v t ready inv) in
              let same = ap (λ l. before ++ reached ha l) (ready_names_open pod pods ready) in
              let inv' = opening.later pod pods v t ready inv in
              elim (Bool-cases ha) [
                | inr off ↦
                    subst (Named v (pod ∷ pods))
                      (sym (visit_pods_last pod pods v opened t _ _ opens off))
                      (
                        ap (λ l. before ++ l) (reached_first ha pod.name (ready_names pods) off)
                            ∙ same,
                        (pods, inv'),
                      )
                | inl on ↦
                    let (names, left) = visit_pods-Named pods opened (opened_at pod v t) inv' in
                    subst (Named v (pod ∷ pods))
                      (sym (visit_pods_next pod pods v opened t _ _ opens on))
                      (
                        names
                            ∙ append_assoc before (pod.name ∷ []) (reached ha (ready_names pods))
                            ∙ ap (λ l. before ++ l) (reached_all ha pod.name (ready_names pods) on)
                            ∙ same,
                        left,
                      )
              ]
        ]
