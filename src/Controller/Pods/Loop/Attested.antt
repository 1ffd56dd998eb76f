-- ===== src/Controller/Pods/Loop/Attested.antt =====
-- Why a name is in the status: the Vault of a pod of that name said that it is not sealed.
use mathlib.Core.List.Memᴰ
use vault_unsealer.Prelude.{
  ◌≡◌, refl, sym, ap, subst, ◌∙◌, ◌⊎◌, inl, inr, Bool, true, false, List, [], ◌∷◌, ◌++◌,
  append_assoc, Memᴰ, Bool-cases,
}
use vault_unsealer.Text.{Text}
use vault_unsealer.Result.{Result, ok, err}
use vault_unsealer.Api.{VaultUnsealerSpec}
use vault_unsealer.Cluster.{Env, Call, Trace, pure, ◌>>=◌, Pod}
use vault_unsealer.Controller.Connection.{vault_url}
use vault_unsealer.Controller.Pods.{
  Visit, checked, is_pod_ready, after_check, proceed, check_and_unseal_pod, visit_pod, visit_pods,
}
use vault_unsealer.Controller.Pods.Evidence.{SaysOpen, check_and_unseal_pod-EndsOpen}
use vault_unsealer.Controller.Pods.Loop.Calls.{spec-visit_pod, visit_pod-Emits, visit_pods-Emits}

-- Between `t` and `u`, a call to the address was answered by a Vault that is not sealed.
abbrev pub IsHeard : Env → Text → Trace → Trace → Type 0
IsHeard env address t u =
    (newer : Trace) × (call : Call) × (older : Trace) × (u ≡ newer ++ (call ∷ (older ++ t)))
    × SaysOpen env address call (older ++ t)

-- The name is that of a ready pod of the list whose Vault said so.
abbrev pub IsAttested : Env → Text → List Pod → Trace → Trace → Text → Type 0
IsAttested env url pods t u name =
    (pod : Pod) × Memᴰ pod pods
    × (is_pod_ready pod ≡ true)
    × (name ≡ pod.name)
    × IsHeard env (vault_url pod.pod_ip url) t u

module _ (env : Env) where
  pub IsHeard-later :
      (address : Text) (new t u w : Trace)
      → w ≡ new ++ u
      → IsHeard env address t u
      → IsHeard env address t w
  IsHeard-later address new t u w e (newer, call, older, history, says) = (
    new ++ newer,
    call,
    older,
    e ∙ ap (λ x. new ++ x) history ∙ sym (append_assoc new newer (call ∷ (older ++ t))),
    says,
  )

  pub IsHeard-earlier :
      (address : Text) (new s t u : Trace)
      → t ≡ new ++ s
      → IsHeard env address t u
      → IsHeard env address s u
  IsHeard-earlier address new s t u e (newer, call, older, history, says) =
      let longer = ap (λ w. older ++ w) e ∙ sym (append_assoc older new s) in
      (
        newer,
        call,
        older ++ new,
        history ∙ ap (λ w. newer ++ (call ∷ w)) longer,
        subst (λ w. SaysOpen env address call w) longer says,
      )

  -- What a visit adds to the names is attested.
  after_check-IsHeard :
      (keys : List Text) (pod : Pod) (v : Visit) (t u : Trace) (r : Result Bool) (name : Text)
      → (r ≡ ok false → IsHeard env (vault_url pod.pod_ip v.vu.spec.vault.url) t u)
      → (let p = after_check env pod (checked pod v) r u in
          Memᴰ name p.0.0.vu.status.unsealed_pods
          → Memᴰ name v.vu.status.unsealed_pods
            ⊎ ((name ≡ pod.name) × IsHeard env (vault_url pod.pod_ip v.vu.spec.vault.url) t p.1))
  unfolding after_check ◌>>=◌
  after_check-IsHeard keys pod v t u (err e) name h m = inl m
  after_check-IsHeard keys pod v t u (ok true) name h m = inl m
  after_check-IsHeard keys pod v t u (ok false) name h m =
      let heard =
        IsHeard-later (vault_url pod.pod_ip v.vu.spec.vault.url)
          ((after_check env pod (checked pod v) (ok false) []).1) t u _ refl (h refl) in
      elim (Memᴰ.append_cases v.vu.status.unsealed_pods m) [
        | inl old ↦ inl old
        | inr (Memᴰ.head e) ↦ inr (e, heard)
        | inr (Memᴰ.tail m') ↦ elim m' [ ]
      ]

  visit_pod-IsHeard :
      (keys : List Text) (pod : Pod) (v : Visit) (t : Trace) (name : Text)
      → (let p = visit_pod env keys pod v t in
          Memᴰ name p.0.0.vu.status.unsealed_pods
          → Memᴰ name v.vu.status.unsealed_pods
            ⊎ ((name ≡ pod.name)
                × (is_pod_ready pod ≡ true)
                × IsHeard env (vault_url pod.pod_ip v.vu.spec.vault.url) t p.1))
  unfolding visit_pod ◌>>=◌ pure
  visit_pod-IsHeard keys pod v t name = elim (Bool-cases (is_pod_ready pod)) [
    | inr n ↦ rw (n, visit_pod) (λ m. inl m)
    | inl y ↦
        let (r, u) = check_and_unseal_pod env pod (checked pod v).vu keys t in
        rw y λ m.
          elim (after_check-IsHeard keys pod v t u r name
            (λ e.
              let (call, older, history, says) =
                check_and_unseal_pod-EndsOpen env pod (checked pod v).vu keys t e in
              ([], call, older, history, says))
            m) [ inl old ↦ inl old | inr (same, heard) ↦ inr (same, refl, heard) ]
  ]

  IsAttested-wider :
      (url : Text) (pod : Pod) (pods : List Pod) (new s t u : Trace) (name : Text)
      → t ≡ new ++ s
      → IsAttested env url pods t u name
      → IsAttested env url (pod ∷ pods) s u name
  IsAttested-wider url pod pods new s t u name e (p, m, y, same, heard) =
      (p, Memᴰ.tail m, y, same, IsHeard-earlier (vault_url p.pod_ip url) new s t u e heard)

  -- The loop goes on, or it ends behind the visit.
  proceed-IsAttested :
      (keys : List Text) (pods : List Pod) (url : Text) (r : Visit × Bool) (t : Trace) (name : Text)
      → (let w = visit_pods env keys pods r.0 t in
          Memᴰ name w.0.vu.status.unsealed_pods
          → Memᴰ name r.0.vu.status.unsealed_pods ⊎ IsAttested env url pods t w.1 name)
      → (let w = proceed r (visit_pods env keys pods) t in
          ((new : Trace) × (w.1 ≡ new ++ t))
          × (Memᴰ name w.0.vu.status.unsealed_pods
              → Memᴰ name r.0.vu.status.unsealed_pods ⊎ IsAttested env url pods t w.1 name))
  unfolding proceed pure
  proceed-IsAttested keys pods url (v, true) t name ih =
      let (new, e, all) = (visit_pods-Emits env keys pods v).at t in ((new, e), ih)
  proceed-IsAttested keys pods url (v, false) t name ih = (([], refl), λ m. inl m)

  -- Each name that the loop adds to the unsealed pods is attested behind `t`.
  pub visit_pods-IsAttested :
      (keys : List Text) (pods : List Pod) (v : Visit) (t : Trace) (name : Text)
      → Memᴰ name (visit_pods env keys pods v t).0.vu.status.unsealed_pods
      → Memᴰ name v.vu.status.unsealed_pods
        ⊎ IsAttested env v.vu.spec.vault.url pods t (visit_pods env keys pods v t).1 name
  unfolding visit_pods ◌>>=◌
  visit_pods-IsAttested keys [] v t name m = inl m
  visit_pods-IsAttested keys (pod ∷ pods) v t name m =
      let url = v.vu.spec.vault.url in
      let (r, t') = visit_pod env keys pod v t in
      let same : r.0.vu.spec.vault.url ≡ url =
        ap (λ (s : VaultUnsealerSpec). s.vault.url)
          (spec-visit_pod env v.vu.spec.vault keys (pod ∷ pods) pod v t) in
      let ((new, grown), rest) = proceed-IsAttested keys pods url r t' name (
        subst
          (λ u.
            (let w = visit_pods env keys pods r.0 t' in
              Memᴰ name w.0.vu.status.unsealed_pods
              → Memᴰ name r.0.vu.status.unsealed_pods ⊎ IsAttested env u pods t' w.1 name))
          same (visit_pods-IsAttested keys pods r.0 t' name)) in
      let (before, begun, _) =
        (visit_pod-Emits env v.vu.spec.vault keys (pod ∷ pods) pod v refl (Memᴰ.head refl)).at t in
      elim (rest m) [
        | inr later ↦ inr (IsAttested-wider url pod pods before t t' _ name begun later)
        | inl there ↦ elim (visit_pod-IsHeard keys pod v t name there) [
          | inl old ↦ inl old
          | inr (named, y, heard) ↦ inr (
            pod,
            Memᴰ.head refl,
            y,
            named,
            IsHeard-later (vault_url pod.pod_ip url) new t t' _ grown heard,
          )
        ]
      ]
