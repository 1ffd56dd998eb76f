-- ===== src/Controller/Reconcile/Total.antt =====
-- How many calls one pass makes at most.
use vault_unsealer.Prelude.{
  ℕ, pos_part, ◌+◌, ◌*◌, ◌<◌, ◌≤◌, ◌≡◌, refl, List, [], ◌∷◌, Option, none, some, length, arith,
}
use vault_unsealer.Text.{Text}
use vault_unsealer.Result.{Error, Result, ok, err}
use vault_unsealer.Api.{VaultUnsealer}
use vault_unsealer.Cluster.{Env, Trace, ◌>>=◌, Pod, now}
use vault_unsealer.Cluster.Counts.{count, AtMost-pure, AtMost-perform, AtMost-emit, AtMost-bind_of}
use vault_unsealer.Secrets.Loader.Calls.{load_unseal_keys-AtMost}
use vault_unsealer.Secrets.Loader.Guarantees.{load_unseal_keys-AreLoaded}
use vault_unsealer.Controller.Pods.{Visit}
use vault_unsealer.Controller.Pods.Total.{calls, Short, visit_pods-Short}
use vault_unsealer.Controller.Reconcile.{
  list_selected, get_vault_pods, save, after_save, finish_pass, after_keys, after_pods, pass,
  reconcile_vault_unsealer,
}
use vault_unsealer.Controller.Reconcile.Report.{begun_at, listed_at}
use vault_unsealer.Controller.Reconcile.Bounds.{found, mul_le}

module _ (env : Env) where
  save-Short : (vu : VaultUnsealer) → Short 1 (save env vu)
  unfolding save
  save-Short vu = AtMost-perform _ _

  after_save-Short :
      (vu : VaultUnsealer) (failure : Option Error) → Short 1 (after_save env vu failure)
  unfolding after_save
  after_save-Short vu none = AtMost-pure 1 _
  after_save-Short vu (some e) =
      AtMost-bind_of 1 0 _ _ (omega arith) (AtMost-emit _) (λ t. AtMost-pure 0 _)

  finish_pass-Short : (v : Visit) → Short 4 (finish_pass env v)
  unfolding finish_pass
  finish_pass-Short v = AtMost-bind_of 1 3 _ _ (omega arith) (AtMost-emit _) λ t.
      AtMost-bind_of 1 2 _ _ (omega arith) (AtMost-emit _)
        λ u. AtMost-bind_of 1 1 _ _ (omega arith) (save-Short _) (λ w. after_save-Short _ _)

  after_keys-Short :
      (bound : ℕ) (pods : List Pod) (vu : VaultUnsealer) (r : Result (List Text))
      → ((keys : List Text) → r ≡ ok keys → length keys ≤ bound)
      → Short (length pods * (bound + 5) + 5) (after_keys env pods vu r)
  unfolding after_keys
  after_keys-Short bound pods vu (err e) h =
      AtMost-bind_of 1 1 _ _ (omega arith) (AtMost-emit _)
        λ t. AtMost-bind_of 1 0 _ _ (omega arith) (save-Short _) (λ u. AtMost-pure 0 _)
  after_keys-Short bound pods vu (ok keys) h =
      let few = h keys refl in
      let le = mul_le (length pods) (length keys + 5) (bound + 5) (omega arith) in
      AtMost-bind_of 1 (length pods * (length keys + 5) + 4) _ _ (omega arith) (AtMost-emit _) λ t.
        AtMost-bind_of (length pods * (length keys + 5)) 4 _ _ (omega arith)
          (visit_pods-Short env keys pods _) (λ u. finish_pass-Short _)

  after_pods-Short :
      (vu : VaultUnsealer) (listed : Result (List Pod))
      → 0 < pos_part vu.spec.key_threshold
      → Short
          (length vu.spec.unseal_keys_secret_refs
            + (found listed * (pos_part vu.spec.key_threshold + 5) + 5))
          (after_pods env vu listed)
  unfolding after_pods
  after_pods-Short vu (err e) h =
      AtMost-bind_of 1 1 _ _ (omega arith) (AtMost-emit _)
        λ t. AtMost-bind_of 1 0 _ _ (omega arith) (save-Short _) (λ u. AtMost-pure 0 _)
  after_pods-Short vu (ok []) h =
      AtMost-bind_of 1 0 _ _ (omega arith) (save-Short _) (λ t. AtMost-pure 0 _)
  after_pods-Short vu (ok (pod ∷ pods)) h =
      let threshold = vu.spec.key_threshold in
      AtMost-bind_of (length vu.spec.unseal_keys_secret_refs)
        (length (pod ∷ pods) * (pos_part threshold + 5) + 5) _ _ (omega arith)
        (load_unseal_keys-AtMost env vu.namespace _ threshold)
        λ t. after_keys-Short (pos_part threshold) (pod ∷ pods) vu _ λ keys e.
          let (parts, _, loaded) =
            load_unseal_keys-AreLoaded env vu.namespace vu.spec.unseal_keys_secret_refs threshold t
              keys e in
          loaded.at_most h

  list_selected-Short : (vu : VaultUnsealer) (e : Option Error) → Short 1 (list_selected env vu e)
  unfolding list_selected
  list_selected-Short vu none = AtMost-perform _ _
  list_selected-Short vu (some e) = AtMost-pure 1 _

  -- With a positive threshold, a pass is over within eleven calls, one more for each secret reference,
  -- and the threshold and five for each pod that it found.
  pub calls-reconcile_vault_unsealer :
      (vu : VaultUnsealer) (t : Trace)
      → 0 < pos_part vu.spec.key_threshold
      → calls (reconcile_vault_unsealer env vu t).1
        ≤ 11
          + length vu.spec.unseal_keys_secret_refs
          + found (listed_at env vu t) * (pos_part vu.spec.key_threshold + 5)
          + calls t
  unfolding reconcile_vault_unsealer pass get_vault_pods ◌>>=◌ count
  calls-reconcile_vault_unsealer vu t h =
      let start = begun_at env vu t in
      let listing =
        (list_selected-Short start (env.parse_selector vu.spec.vault_label_selector)).at
          (now ∷ now ∷ t) in
      let rest =
        (after_pods-Short start (listed_at env vu t) h).at
          (get_vault_pods env start (now ∷ now ∷ t)).1 in
      omega arith
