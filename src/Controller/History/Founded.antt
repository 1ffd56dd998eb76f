-- ===== src/Controller/History/Founded.antt =====
-- What a saved status claims, and by what: the verdict of its pass, and the answers of Vaults.
use mathlib.Core.List.Memᴰ
use vault_unsealer.Prelude.{
  ◌≡◌, refl, sym, subst, ◌∙◌, ◌⊎◌, inl, inr, true, [], ◌∷◌, ◌++◌, Memᴰ, some, Bool, List, false,
  if◌then◌else◌,
}
use vault_unsealer.Text.{Text}
use vault_unsealer.Api.{VaultUnsealerSpec, VaultUnsealer}
use vault_unsealer.Cluster.{Env, Trace, list_pods, update_status}
use vault_unsealer.Controller.Connection.{vault_url}
use vault_unsealer.Controller.Pods.Loop.Attested.{IsHeard-later}
use vault_unsealer.Controller.Reconcile.Found.{
  IsFound, reconcile_vault_unsealer-IsFound, owned_by-reconcile_vault_unsealer,
}
use vault_unsealer.Controller.Conditions.{
  ready, keys_missing, pod_unavailable, status_true, status_false,
}
use vault_unsealer.Controller.Reconcile.{reconcile_vault_unsealer}
use vault_unsealer.Controller.Reconcile.Report.{last_saved}
use vault_unsealer.Controller.Reconcile.Status.{condition_status}
use vault_unsealer.Controller.Reconcile.Verdict.{some_name, IsFailed, IsJudged}
use vault_unsealer.Controller.History.{Memᴰ-last_saved}

-- A saved status tells either which failure kept the pass from the pods, or, without one, by Ready
-- whether it names an unsealed pod.
abbrev pub IsConclusive : VaultUnsealer → Type 0
IsConclusive vu =
    (((condition_status pod_unavailable vu ≡ some status_true)
        ⊎ (condition_status keys_missing vu ≡ some status_true))
      × (vu.status.unsealed_pods ≡ []))
    ⊎ IsJudged vu

-- The status names an unsealed pod, and the history has the reason: a ready pod of that name in the
-- answer to a listing by the namespace and the selector of the object, and behind it the answer of the
-- Vault at the address of that pod that it is not sealed.
abbrev pub IsOpened : Env → Trace → VaultUnsealer → Type 0
IsOpened env t vu =
    (name : Text) × Memᴰ name vu.status.unsealed_pods × IsFound env vu.namespace vu.spec t name

-- If Ready is True, there is such a status in the history.
abbrev pub IsFounded : Env → Trace → VaultUnsealer → Type 0
IsFounded env t vu =
    condition_status ready vu ≡ some status_true
    → (old : VaultUnsealer) × Memᴰ (update_status old) t × IsJudged old × IsOpened env t old

IsFound-later :
    (env : Env) (new t u : Trace) (namespace : Text) (spec : VaultUnsealerSpec) (name : Text)
    → u ≡ new ++ t
    → IsFound env namespace spec t name
    → IsFound env namespace spec u name
IsFound-later env new t u namespace spec name e found =
    let (pod, same, is_ready, (before, pods, listed, m, heard)) = found in
    let behind = list_pods namespace spec.vault_label_selector ∷ before in
    let address = vault_url pod.pod_ip spec.vault.url in
    (
      pod,
      same,
      is_ready,
      (before, pods, listed, m, IsHeard-later env address new behind t u e heard),
    )

pub IsFounded-older :
    (env : Env) (new t u : Trace) (vu : VaultUnsealer)
    → u ≡ new ++ t
    → IsFounded env t vu
    → IsFounded env u vu
IsFounded-older env new t u vu e h is =
    let (old, m, judged, (name, named, found)) = h is in
    (
      old,
      subst (λ w. Memᴰ (update_status old) w) (sym e) (Memᴰ.append_right new m),
      judged,
      (name, named, IsFound-later env new t u old.namespace old.spec name e found),
    )

-- The verdict of a pass, whatever the pods and the keys.
abbrev pub IsDecided : VaultUnsealer → VaultUnsealer → Type 0
IsDecided vu saved =
    (IsFailed pod_unavailable vu saved ⊎ IsFailed keys_missing vu saved) ⊎ IsJudged saved

pub IsConclusive-of : (vu saved : VaultUnsealer) → IsDecided vu saved → IsConclusive saved
IsConclusive-of vu saved (inl (inl (why, same, none'))) = inl (inl why, none')
IsConclusive-of vu saved (inl (inr (why, same, none'))) = inl (inr why, none')
IsConclusive-of vu saved (inr judged) = inr judged

verdict_true :
    (b : Bool) → some (if b then status_true else status_false) ≡ some status_true → b ≡ true
verdict_true true h = refl
verdict_true false h = absurd (cc)

first_name : (names : List Text) → some_name names ≡ true → (name : Text) × Memᴰ name names
first_name [] h = absurd (cc)
first_name (n ∷ names) h = (n, Memᴰ.head refl)

-- A judged status that a pass saved with Ready True is opened.
IsOpened-of :
    (env : Env) (vu saved : VaultUnsealer) (t : Trace)
    → last_saved (reconcile_vault_unsealer env vu t).1 ≡ some saved
    → some_name saved.status.unsealed_pods ≡ true
    → IsOpened env (reconcile_vault_unsealer env vu t).1 saved
IsOpened-of env vu saved t is named =
    let u = (reconcile_vault_unsealer env vu t).1 in
    let (name, m) = first_name saved.status.unsealed_pods named in
    let (here, spec) = owned_by-reconcile_vault_unsealer env vu saved t is in
    let found = reconcile_vault_unsealer-IsFound env vu saved t name is m in
    (
      name,
      m,
      subst (λ s. IsFound env saved.namespace s u name) (sym spec)
          (subst (λ n. IsFound env n vu.spec u name) (sym here) found),
    )

module _ (env : Env) (vu saved : VaultUnsealer) (t : Trace) (new : Trace)
    (e : (reconcile_vault_unsealer env vu t).1 ≡ new ++ t)
    (is : last_saved (reconcile_vault_unsealer env vu t).1 ≡ some saved)
    (before : IsFounded env t vu) where
  kept_ready :
      condition_status ready saved ≡ condition_status ready vu
      → IsFounded env (reconcile_vault_unsealer env vu t).1 saved
  kept_ready same ready' = IsFounded-older env new t _ vu e before (sym same ∙ ready')

  pub IsFounded-saved :
      IsDecided vu saved → IsFounded env (reconcile_vault_unsealer env vu t).1 saved
  IsFounded-saved (inl (inl (why, same, none'))) ready' = kept_ready same ready'
  IsFounded-saved (inl (inr (why, same, none'))) ready' = kept_ready same ready'
  IsFounded-saved (inr judged) ready' = (
    saved,
    Memᴰ-last_saved _ saved is,
    judged,
    IsOpened-of env vu saved t is (verdict_true _ (sym (judged.2) ∙ ready')),
  )
