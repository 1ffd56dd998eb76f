-- ===== src/Secrets/Loader/Guarantees.antt =====
-- What the caller of LoadUnsealKeys may rely on.
use mathlib.Core.List.{flatten}
use vault_unsealer.Prelude.{
  ℤ, pos_part, ◌≤◌, ◌<◌, ◌≡◌, sym, ◌∙◌, ap, refl, List, length, IsDistinct, Memᴰ,
}
use vault_unsealer.Text.{Text}
use vault_unsealer.Result.{Result, ok, err}
use vault_unsealer.Api.{SecretRef}
use vault_unsealer.Cluster.{Env, Trace}
use vault_unsealer.Secrets.Loader.{load_unseal_keys}
use vault_unsealer.Secrets.Loader.Distinct.{
  first_occurrences, first_occurrences-IsDistinct, Memᴰ-of_first_occurrences,
}
use vault_unsealer.Secrets.Loader.Laws.{
  read_all, finished, load_unseal_keys-eq-finished, IsDistinct-finish, finish_bounds, Memᴰ-finish,
}

-- Keys that were loaded from the contents `parts` of all the secrets.
pub record AreLoaded (threshold : ℤ) (parts : List (List Text)) (keys : List Text) : Type 0 where
  pub some_key : 0 < length keys
  pub at_most : 0 < pos_part threshold → length keys ≤ pos_part threshold
  pub distinct : IsDistinct keys
  pub from_secrets : (k : Text) → Memᴰ k keys → Memᴰ k (flatten parts)

finished-AreLoaded :
    (env : Env) (threshold : ℤ) (r : Result (List (List Text))) (keys : List Text)
    → finished env threshold r ≡ ok keys
    → (parts : List (List Text)) × (r ≡ ok parts) × AreLoaded threshold parts keys
finished-AreLoaded env threshold (err e) keys h = cc
finished-AreLoaded env threshold (ok parts) keys h =
    let all_keys = first_occurrences (flatten parts) in
    let (some_key, at_most) = finish_bounds threshold all_keys keys h in
    (
      parts,
      refl,
      record {
        some_key = some_key;
        at_most = at_most;
        distinct =
            IsDistinct-finish threshold all_keys keys h
              (first_occurrences-IsDistinct (flatten parts));
        from_secrets = λ k m.
            Memᴰ-of_first_occurrences (flatten parts) (Memᴰ-finish threshold all_keys keys h m);
      },
    )

-- When LoadUnsealKeys succeeds, every referenced secret was read, in order; there is a key, there are
-- at most `threshold` keys if the threshold is positive, no key comes twice, and each was in one of
-- the secrets.
pub load_unseal_keys-AreLoaded :
    (env : Env) (namespace : Text) (refs : List SecretRef) (threshold : ℤ) (t : Trace)
    (keys : List Text)
    → (load_unseal_keys env namespace refs threshold t).0 ≡ ok keys
    → (parts : List (List Text)) × ((read_all env namespace refs t).0 ≡ ok parts)
      × AreLoaded threshold parts keys
load_unseal_keys-AreLoaded env namespace refs threshold t keys h =
    finished-AreLoaded env threshold (read_all env namespace refs t).0 keys
      (sym (ap (λ p. p.0) (load_unseal_keys-eq-finished env namespace refs threshold t)) ∙ h)
