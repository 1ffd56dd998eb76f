-- ===== src/Controller/Reconcile/Bounds.antt =====
-- How many keys one pass submits at most.
use vault_unsealer.Prelude.{
  ℕ, zero, suc, pos_part, ◌+◌, ◌*◌, ◌<◌, ◌≤◌, ◌≡◌, refl, List, [], ◌∷◌, Option, none, some, length,
  arith,
}
use vault_unsealer.Text.{Text}
use vault_unsealer.Result.{Error, Result, ok, err}
use vault_unsealer.Api.{VaultUnsealer}
use vault_unsealer.Cluster.{Env, Trace, ◌>>=◌, Pod, now}
use vault_unsealer.Cluster.Emits.{Emits-bind, Emits-pure, Emits-emit, Emits-perform}
use vault_unsealer.Cluster.Counts.{count, AtMost, AtMost-of_Emits, AtMost-pure, AtMost-bind_of}
use vault_unsealer.Secrets.Loader.Calls.{load_unseal_keys-Emits}
use vault_unsealer.Secrets.Loader.Guarantees.{load_unseal_keys-AreLoaded}
use vault_unsealer.Controller.Pods.{Visit}
use vault_unsealer.Controller.Pods.Bounds.{is_submission, submissions, visit_pods-Few}
use vault_unsealer.Controller.Reconcile.{
  list_selected, get_vault_pods, save, after_save, finish_pass, after_keys, after_pods, pass,
  reconcile_vault_unsealer,
}
use vault_unsealer.Controller.Reconcile.Report.{begun_at, listed_at}

-- The number of pods that were found.
abbrev pub found : Result (List Pod) → ℕ
found (err e) = 0
found (ok pods) = length pods

pub mul_le : (n a b : ℕ) → a ≤ b → 0 + n * a ≤ n * b
mul_le zero a b h = omega arith
mul_le (suc n) a b h = omega (arith, mul_le n a b h)

module _ (env : Env) where
  quiet_save : (vu : VaultUnsealer) → AtMost is_submission 0 (save env vu)
  unfolding save
  quiet_save vu = AtMost-of_Emits _ (Emits-perform _ _ refl)

  quiet_after_save :
      (vu : VaultUnsealer) (failure : Option Error)
      → AtMost is_submission 0 (after_save env vu failure)
  unfolding after_save
  quiet_after_save vu none = AtMost-pure 0 _
  quiet_after_save vu (some e) =
      AtMost-of_Emits _ (Emits-bind _ _ (Emits-emit _ refl) (λ _. Emits-pure _))

  quiet_finish : (v : Visit) → AtMost is_submission 0 (finish_pass env v)
  unfolding finish_pass
  quiet_finish v = AtMost-bind_of 0 0 _ _ (omega arith) (AtMost-of_Emits _ (Emits-emit _ refl)) λ _.
      AtMost-bind_of 0 0 _ _ (omega arith) (AtMost-of_Emits _ (Emits-emit _ refl))
        λ _. AtMost-bind_of 0 0 _ _ (omega arith) (quiet_save _) (λ t. quiet_after_save _ _)

  after_keys-AtMost :
      (bound : ℕ) (pods : List Pod) (vu : VaultUnsealer) (r : Result (List Text))
      → ((keys : List Text) → r ≡ ok keys → length keys ≤ bound)
      → AtMost is_submission (length pods * bound) (after_keys env pods vu r)
  unfolding after_keys
  after_keys-AtMost bound pods vu (err e) h =
      AtMost-bind_of 0 0 _ _ (omega arith) (AtMost-of_Emits _ (Emits-emit _ refl))
        λ _. AtMost-bind_of 0 0 _ _ (omega arith) (quiet_save _) (λ t. AtMost-pure 0 _)
  after_keys-AtMost bound pods vu (ok keys) h =
      let few = h keys refl in
      AtMost-bind_of 0 (length pods * length keys) _ _
        (mul_le (length pods) (length keys) bound few) (AtMost-of_Emits _ (Emits-emit _ refl))
        λ _.
          AtMost-bind_of (length pods * length keys) 0 _ _ (omega arith)
            (visit_pods-Few env keys pods _) (λ t. quiet_finish _)

  after_pods-AtMost :
      (vu : VaultUnsealer) (listed : Result (List Pod))
      → 0 < pos_part vu.spec.key_threshold
      → AtMost is_submission
          (found listed * pos_part vu.spec.key_threshold)
          (after_pods env vu listed)
  unfolding after_pods
  after_pods-AtMost vu (err e) h =
      AtMost-bind_of 0 0 _ _ (omega arith) (AtMost-of_Emits _ (Emits-emit _ refl))
        λ _. AtMost-bind_of 0 0 _ _ (omega arith) (quiet_save _) (λ t. AtMost-pure 0 _)
  after_pods-AtMost vu (ok []) h =
      AtMost-bind_of 0 0 _ _ (omega arith) (quiet_save _) (λ t. AtMost-pure 0 _)
  after_pods-AtMost vu (ok (pod ∷ pods)) h =
      let threshold = vu.spec.key_threshold in
      AtMost-bind_of 0 (length (pod ∷ pods) * pos_part threshold) _ _ (omega arith)
        (AtMost-of_Emits _ (
          load_unseal_keys-Emits env vu.namespace _ vu.spec.unseal_keys_secret_refs threshold
            (λ r m. refl)))
        λ t. after_keys-AtMost (pos_part threshold) (pod ∷ pods) vu _ λ keys e.
          let (parts, _, loaded) =
            load_unseal_keys-AreLoaded env vu.namespace vu.spec.unseal_keys_secret_refs threshold t
              keys e in
          loaded.at_most h

  quiet_list :
      (vu : VaultUnsealer) (e : Option Error) → AtMost is_submission 0 (list_selected env vu e)
  unfolding list_selected
  quiet_list vu none = AtMost-of_Emits _ (Emits-perform _ _ refl)
  quiet_list vu (some e) = AtMost-pure 0 _

  -- With a positive threshold, a pass submits at most as many keys as the threshold says to each pod
  -- that it found, and none if the list of pods failed.
  pub submissions-reconcile_vault_unsealer :
      (vu : VaultUnsealer) (t : Trace)
      → 0 < pos_part vu.spec.key_threshold
      → submissions (reconcile_vault_unsealer env vu t).1
        ≤ found (listed_at env vu t) * pos_part vu.spec.key_threshold + submissions t
  unfolding reconcile_vault_unsealer pass get_vault_pods ◌>>=◌ count
  submissions-reconcile_vault_unsealer vu t h =
      let start = begun_at env vu t in
      let listing =
        (quiet_list start (env.parse_selector vu.spec.vault_label_selector)).at (now ∷ now ∷ t) in
      let rest =
        (after_pods-AtMost start (listed_at env vu t) h).at
          (get_vault_pods env start (now ∷ now ∷ t)).1 in
      omega arith
