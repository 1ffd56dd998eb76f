-- ===== src/Controller/Reconcile/Found.antt =====
-- The listing from which a pass has the pods that it names as unsealed.
use vault_unsealer.Prelude.{
  ◌≡◌, refl, sym, ap, subst, ◌∙◌, true, List, [], ◌∷◌, none, some, Option, Memᴰ, Bool-cases, inl,
  inr, ltb,
}
use vault_unsealer.Text.{Text}
use vault_unsealer.Result.{Error, Result, ok, err}
use vault_unsealer.Api.{VaultUnsealerSpec, VaultUnsealer}
use vault_unsealer.Cluster.{Env, Trace, ◌>>=◌, Pod, list_pods, now}
use vault_unsealer.Controller.Connection.{vault_url}
use vault_unsealer.Controller.Conditions.{set_condition, clear_condition}
use vault_unsealer.Controller.Pods.{Visit, is_pod_ready}
use vault_unsealer.Controller.Pods.Loop.Attested.{IsAttested, IsHeard}
use vault_unsealer.Controller.Reconcile.{
  judge, completed, list_selected, get_vault_pods, pass, reconcile_vault_unsealer,
}
use vault_unsealer.Controller.Reconcile.Attested.{pods_in, IsAttested-later, after_pods-IsWitnessed}
use vault_unsealer.Controller.Reconcile.Report.{
  Report, listing_failed, no_pods_found, keys_failed, visited, visits, visits-IsVisited, last_saved,
  begun_at, reconcile_vault_unsealer-IsReported,
}

-- In the history there is a listing of pods by the selector of the specification in the namespace, with
-- a ready pod of that name among its answer, and behind it a call to the address that the IP of that
-- pod and the URL of the specification give, which was answered by a Vault that is not sealed.
abbrev pub IsFound : Env → Text → VaultUnsealerSpec → Trace → Text → Type 0
IsFound env namespace spec t name =
    (pod : Pod) × (name ≡ pod.name)
    × (is_pod_ready pod ≡ true)
    × ((before : Trace) × (pods : List Pod) × (env.list_pods before namespace
            spec.vault_label_selector
          ≡ ok pods)
        × Memᴰ pod pods
        × IsHeard env (vault_url pod.pod_ip spec.vault.url)
            (list_pods namespace spec.vault_label_selector ∷ before) t)

listed_ok :
    (r : Result (List Pod)) (pod : Pod)
    → Memᴰ pod (pods_in r)
    → (pods : List Pod) × (r ≡ ok pods) × Memᴰ pod pods
listed_ok (err e) pod m = elim m [ ]
listed_ok (ok pods) pod m = (pods, refl, m)

list_selected-IsFound :
    (env : Env) (vu : VaultUnsealer) (e : Option Error) (t u : Trace) (name : Text)
    → (let p = list_selected env vu e t in
        IsAttested env vu.spec.vault.url (pods_in p.0) p.1 u name)
    → IsFound env vu.namespace vu.spec u name
unfolding list_selected ◌>>=◌
list_selected-IsFound env vu (some e) t u name (pod, m, _, _, _) = elim m [ ]
list_selected-IsFound env vu none t u name (pod, m, is_ready, same, heard) =
    let (pods, listed, m') =
      listed_ok (env.list_pods t vu.namespace vu.spec.vault_label_selector) pod m in
    (pod, same, is_ready, (t, pods, listed, m', heard))

-- A name in the unsealed pods of the status that a pass saves is found.
pub reconcile_vault_unsealer-IsFound :
    (env : Env) (vu saved : VaultUnsealer) (t : Trace) (name : Text)
    → last_saved (reconcile_vault_unsealer env vu t).1 ≡ some saved
    → Memᴰ name saved.status.unsealed_pods
    → IsFound env vu.namespace vu.spec (reconcile_vault_unsealer env vu t).1 name
unfolding reconcile_vault_unsealer pass get_vault_pods ◌>>=◌ last_saved
reconcile_vault_unsealer-IsFound env vu saved t name is m =
    let start = begun_at env vu t in
    let listed = get_vault_pods env start (now ∷ now ∷ t) in
    let body = after_pods-IsWitnessed env start refl listed.0 listed.1 in
    let same : body.saved ≡ saved = cc (body.is_last, is) in
    let named = subst (λ (x : VaultUnsealer). Memᴰ name x.status.unsealed_pods) (sym same) m in
    list_selected-IsFound env start (env.parse_selector vu.spec.vault_label_selector)
      (now ∷ now ∷ t) _ name
      (IsAttested-later env vu.spec.vault.url (pods_in listed.0) (_ ∷ _ ∷ now ∷ []) listed.1 _ name
        (body.attested name named))

-- The namespace and the specification of an object.
abbrev Owned : Type 0
Owned = Text × VaultUnsealerSpec

abbrev owned_by : VaultUnsealer → Owned
owned_by vu = (vu.namespace, vu.spec)

owned_by-completed : (v : Visit) → owned_by (completed v) ≡ owned_by v.vu
unfolding judge set_condition clear_condition
owned_by-completed v = elim (Bool-cases (ltb 0 v.unsealed_count)) [
  | inl y ↦ rw y refl
  | inr n ↦ rw n refl
]

Report-owned_by :
    {env : Env} {vu saved : VaultUnsealer} {listed : Result (List Pod)}
    {loading : Result (List Text) × Trace} {told error : Option Error}
    → Report env vu listed loading told error saved
    → owned_by saved ≡ owned_by vu
unfolding set_condition
Report-owned_by (listing_failed e _ _ s) = ap owned_by s
Report-owned_by (no_pods_found _ _ s) = ap owned_by s
Report-owned_by (keys_failed _ _ e _ _ _ s) = ap owned_by s
Report-owned_by {env} {vu} {loading} (visited pod pods keys _ _ _ s) =
    ap owned_by s
    ∙ owned_by-completed (visits env vu (pod ∷ pods) keys loading.1)
    ∙ ap owned_by (visits-IsVisited env vu (pod ∷ pods) keys loading.1).vu

-- The status is saved with the namespace and the specification of the object of the pass.
pub owned_by-reconcile_vault_unsealer :
    (env : Env) (vu saved : VaultUnsealer) (t : Trace)
    → last_saved (reconcile_vault_unsealer env vu t).1 ≡ some saved
    → (saved.namespace ≡ vu.namespace) × (saved.spec ≡ vu.spec)
owned_by-reconcile_vault_unsealer env vu saved t is =
    let r = reconcile_vault_unsealer-IsReported env vu t in
    let same : r.saved ≡ saved = cc (r.is_last, is) in
    let owned = ap owned_by (sym same) ∙ Report-owned_by r.report in
    (ap (λ o. o.0) owned, ap (λ o. o.1) owned)
