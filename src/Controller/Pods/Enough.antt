-- ===== src/Controller/Pods/Enough.antt =====
-- From the secrets to an open Vault: how many keys the threshold leaves, and whether they are enough.
use mathlib.Core.List.{flatten}
use vault_unsealer.Prelude.{
  ℕ, ℤ, pos, negsuc, zero, suc, ◌<◌, ◌≡◌, sym, ap, ◌∙◌, true, List, [], ◌∷◌, min, ltb, length,
  length-take, All, arith,
}
use vault_unsealer.Text.{Text}
use vault_unsealer.Result.{ok}
use vault_unsealer.Api.{SecretRef, VaultUnsealer}
use vault_unsealer.Cluster.{Env, Trace, ◌>>=◌, Pod, ApiConfig, SealStatus, read_seal_status}
use vault_unsealer.Vault.{get_seal_status}
use vault_unsealer.Secrets.Loader.{cut_to_threshold, finish, load_unseal_keys}
use vault_unsealer.Secrets.Loader.Distinct.{
  first_occurrences, first_occurrences-IsDistinct, All-first_occurrences,
}
use vault_unsealer.Secrets.Loader.Laws.{
  read_all, finished, load_unseal_keys-eq-finished, IsDistinct-finish, All-finish,
}
use vault_unsealer.Controller.Connection.{create_vault_client}
use vault_unsealer.Controller.Pods.{after_status, after_client, submit_keys, check_and_unseal_pod}
use vault_unsealer.Controller.Pods.Quorum.{OpensAt, progress, submit_keys-quorum}

-- The number of keys that are left of `n`: all, unless the threshold is positive and smaller.
unfoldable pub used : ℤ → ℕ → ℕ
used (pos zero) n = n
used (pos (suc k)) n = min (suc k) n
used (negsuc k) n = n

length-cut :
    (threshold : ℤ) (keys : List Text)
    → length (cut_to_threshold threshold keys) ≡ used threshold (length keys)
unfolding cut_to_threshold used
length-cut (pos zero) keys = ground arith
length-cut (pos (suc k)) keys = ground (arith, length-take (suc k) keys)
length-cut (negsuc k) keys = ground arith

length-finish :
    (threshold : ℤ) (all_keys keys : List Text)
    → finish threshold all_keys ≡ ok keys
    → length keys ≡ used threshold (length all_keys)
unfolding finish
length-finish threshold [] keys e = cc
length-finish threshold (k ∷ ks) keys e =
    let same : keys ≡ cut_to_threshold threshold (k ∷ ks) = cc in
    ap length same ∙ length-cut threshold (k ∷ ks)

module _ (env : Env) (vu : VaultUnsealer) (pod : Pod) (client : ApiConfig) (status : SealStatus)
    (t : Trace) where
  -- The pod's Vault is reached behind `t`, and says that it is sealed.
  pub record IsFoundSealed : Type 0 where
    pub client_made : (create_vault_client env pod vu t).0 ≡ ok client
    pub answered : (get_seal_status env client (create_vault_client env pod vu t).1).0 ≡ ok status
    pub sealed : status.sealed ≡ true

  -- the history when the first key is submitted
  abbrev pub asked : Trace
  asked = read_seal_status client ∷ (create_vault_client env pod vu t).1

  pub check_found :
      (keys : List Text)
      → IsFoundSealed
      → check_and_unseal_pod env pod vu keys t ≡ submit_keys env client keys asked
  unfolding check_and_unseal_pod after_client after_status ◌>>=◌ get_seal_status
  check_found keys h = rw (h.client_made, after_client, ◌>>=◌, h.answered, h.sealed)

  -- The pod's Vault is found sealed and without a share, and opens at a quorum of shares, the secrets
  -- hold shares alone, and the keys are those that LoadUnsealKeys gave, at whatever time. Then the
  -- check of the pod ends without an error, and says that the pod is unsealed exactly when the
  -- different shares in the secrets, cut to a positive threshold, reach the quorum.
  pub check_and_unseal_pod-enough :
      (IsShare : Text → Type 0) (quorum : ℕ) (namespace : Text) (refs : List SecretRef)
      (threshold : ℤ) (loading : Trace) (keys : List Text) (parts : List (List Text))
      → IsFoundSealed
      → OpensAt env client.address IsShare quorum asked
      → 0 < quorum
      → (load_unseal_keys env namespace refs threshold loading).0 ≡ ok keys
      → (read_all env namespace refs loading).0 ≡ ok parts
      → All IsShare (flatten parts)
      → (check_and_unseal_pod env pod vu keys t).0
        ≡ ok (ltb (used threshold (progress (flatten parts))) quorum)
  check_and_unseal_pod-enough IsShare quorum namespace refs threshold loading keys parts found vault
        positive loaded read shares =
      let all_keys = first_occurrences (flatten parts) in
      let finished_ok : finish threshold all_keys ≡ ok keys =
        ap (finished env threshold) (sym read)
        ∙ sym (ap (λ p. p.0) (load_unseal_keys-eq-finished env namespace refs threshold loading))
        ∙ loaded in
      let run =
        submit_keys-quorum env client IsShare quorum asked keys vault positive
          (All-finish IsShare threshold all_keys keys finished_ok
            (All-first_occurrences IsShare (flatten parts) shares))
          (IsDistinct-finish threshold all_keys keys finished_ok
            (first_occurrences-IsDistinct (flatten parts))) in
      ap (λ p. p.0) (check_found keys found ∙ run)
      ∙ ap (λ n. ok (ltb n quorum)) (length-finish threshold all_keys keys finished_ok)
