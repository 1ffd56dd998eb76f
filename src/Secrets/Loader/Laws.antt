-- ===== src/Secrets/Loader/Laws.antt =====
-- LoadUnsealKeys as a whole: read every secret in order, then drop repetitions, then cut.
use mathlib.Core.List.{flatten}
use vault_unsealer.Prelude.{
  ℤ, pos, pos_part, ◌≤◌, ◌<◌, ◌≡◌, refl, sym, ap, ◌∙◌, inl, inr, List, [], ◌∷◌, ◌++◌, arith, length,
  length-take, ltb_ℤ, ◌&&◌, IsDistinct, IsDistinct-take, All, All-take, Memᴰ, Memᴰ-of_take,
  Bool-cases,
}
use vault_unsealer.Text.{Text}
use vault_unsealer.Result.{Result, ok, err, wrap, Result-cases}
use vault_unsealer.Api.{SecretRef}
use vault_unsealer.Cluster.{Env, Prog, pure, ◌>>=◌, Trace}
use vault_unsealer.Secrets.Loader.{
  Collected, add_key, add_keys, cut_to_threshold, finish, load_failure, load_keys_from_secret,
  collect, finish_with, load_unseal_keys,
}
use vault_unsealer.Secrets.Loader.Distinct.{empty, first_occurrences, all_keys-add_keys-empty}

add_keys-append :
    (c : Collected) (xs ys : List Text) → add_keys c (xs ++ ys) ≡ add_keys (add_keys c xs) ys
unfolding add_keys
add_keys-append c [] ys = refl
add_keys-append c (x ∷ xs) ys = add_keys-append (add_key c x) xs ys

module _ (env : Env) where
  abbrev joined : List Text → Result (List (List Text)) → Result (List (List Text))
  joined keys (err e) = err e
  joined keys (ok parts) = ok (keys ∷ parts)

  -- The contents of the secrets in order, up to the first that fails.
  unfoldable pub read_all : Text → List SecretRef → Prog (Result (List (List Text)))
  read_all namespace [] = pure (ok [])
  read_all namespace (ref ∷ refs) = do
    loaded ← load_keys_from_secret env namespace ref
    elim loaded [
      | err e ↦ pure (err (wrap (load_failure ref) e))
      | ok keys ↦ do rest ← read_all namespace refs; pure (joined keys rest)
    ]

  abbrev collected : Collected → Result (List (List Text)) → Result Collected
  collected c (err e) = err e
  collected c (ok parts) = ok (add_keys c (flatten parts))

  collected_rest :
      (c : Collected) (keys : List Text) (r : Result (List (List Text)))
      → collected (add_keys c keys) r ≡ collected c (joined keys r)
  unfolding flatten
  collected_rest c keys (err e) = refl
  collected_rest c keys (ok parts) = ap ok (sym (add_keys-append c keys (flatten parts)))

  collect-eq-read_all :
      (namespace : Text) (refs : List SecretRef) (c : Collected) (t : Trace)
      → collect env namespace refs c t
        ≡ (collected c (read_all namespace refs t).0, (read_all namespace refs t).1)
  unfolding collect read_all load_keys_from_secret ◌>>=◌
  collect-eq-read_all namespace [] c t = unfold add_keys flatten in refl
  collect-eq-read_all namespace (ref ∷ refs) c t =
      elim (Result-cases (load_keys_from_secret env namespace ref t).0) [
        | inl (keys, e) ↦
            let t' = (load_keys_from_secret env namespace ref t).1 in
            rw e (
              collect-eq-read_all namespace refs (add_keys c keys) t'
              ∙ ap (λ r. (r, (read_all namespace refs t').1))
                  (collected_rest c keys (read_all namespace refs t').0))
        | inr (x, e) ↦ rw e
      ]

  abbrev pub finished : ℤ → Result (List (List Text)) → Result (List Text)
  finished threshold (err e) = err e
  finished threshold (ok parts) = finish threshold (first_occurrences (flatten parts))

  finished_lem :
      (threshold : ℤ) (r : Result (List (List Text)))
      → finish_with env threshold (collected empty r) ≡ finished threshold r
  unfolding finish_with
  finished_lem threshold (err e) = refl
  finished_lem threshold (ok parts) =
      ap (finish threshold) (all_keys-add_keys-empty (flatten parts))

  pub load_unseal_keys-eq-finished :
      (namespace : Text) (refs : List SecretRef) (threshold : ℤ) (t : Trace)
      → load_unseal_keys env namespace refs threshold t
        ≡ (finished threshold (read_all namespace refs t).0, (read_all namespace refs t).1)
  unfolding load_unseal_keys ◌>>=◌
  load_unseal_keys-eq-finished namespace refs threshold t =
      rw (collect-eq-read_all namespace refs empty t) (
        ap (λ r. (r, (read_all namespace refs t).1))
          (finished_lem threshold (read_all namespace refs t).0))

pub IsDistinct-finish :
    (threshold : ℤ) (all_keys keys : List Text)
    → finish threshold all_keys ≡ ok keys
    → IsDistinct all_keys
    → IsDistinct keys
unfolding finish
IsDistinct-finish threshold (k ∷ ks) keys e h =
    ground (arith, IsDistinct-take (pos_part threshold) (k ∷ ks) h)
IsDistinct-finish threshold [] keys e h = cc

pub finish_bounds :
    (threshold : ℤ) (all_keys keys : List Text)
    → finish threshold all_keys ≡ ok keys
    → (0 < length keys) × (0 < pos_part threshold → length keys ≤ pos_part threshold)
unfolding finish
finish_bounds threshold (k ∷ ks) keys e = ground (arith, length-take (pos_part threshold) (k ∷ ks))
finish_bounds threshold [] keys e = cc

Memᴰ-of_cut :
    (threshold : ℤ) (keys : List Text) {k : Text}
    → Memᴰ k (cut_to_threshold threshold keys)
    → Memᴰ k keys
unfolding cut_to_threshold
Memᴰ-of_cut threshold keys m =
    elim (Bool-cases (ltb_ℤ (pos 0) threshold && ltb_ℤ threshold (pos (length keys)))) [
      | inl y ↦ Memᴰ-of_take (pos_part threshold) keys (rw y at m)
      | inr n ↦ rw n at m
    ]

pub Memᴰ-finish :
    (threshold : ℤ) (all_keys keys : List Text) {k : Text}
    → finish threshold all_keys ≡ ok keys
    → Memᴰ k keys
    → Memᴰ k all_keys
unfolding finish
Memᴰ-finish threshold (k ∷ ks) keys e m =
    Memᴰ-of_cut threshold (k ∷ ks)
      (let same : keys ≡ cut_to_threshold threshold (k ∷ ks) = cc in rw same at m)
Memᴰ-finish threshold [] keys e m = cc

pub All-finish {κ} :
    (P : Text → Type κ) (threshold : ℤ) (all_keys keys : List Text)
    → finish threshold all_keys ≡ ok keys
    → All P all_keys
    → All P keys
unfolding finish
All-finish P threshold (k ∷ ks) keys e h =
    ground (arith, All-take P (pos_part threshold) (k ∷ ks) h)
All-finish P threshold [] keys e h = cc
