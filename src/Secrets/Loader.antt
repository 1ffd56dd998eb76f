-- ===== src/Secrets/Loader.antt =====
-- internal/secrets/loader.go, LoadUnsealKeys and loadKeysFromSecret: the keys of all the secrets that
-- the resource refers to, without repetitions, cut to the threshold.
pub mod Calls
pub mod Distinct
pub mod Guarantees
pub mod Laws
use vault_unsealer.Prelude.{
  ℤ, pos, pos_part, Bool, true, false, ◌&&◌, List, [], ◌∷◌, ◌++◌, none, some, if◌then◌else◌, ltb_ℤ,
  length, take,
}
use vault_unsealer.Text.{Text, codes, text_eq, is_empty}
use vault_unsealer.Result.{Result, ok, err, new_error, wrap, wrap_result}
use vault_unsealer.Api.{SecretRef, NamespacedName}
use vault_unsealer.Cluster.{Env, Prog, pure, perform, ◌>>=◌, SecretData, lookup, get_secret}
use vault_unsealer.Secrets.Keys.{parse_keys}

-- `secretRef.Namespace`, or the default if it is empty
unfoldable pub namespaced_name : Text → SecretRef → NamespacedName
namespaced_name default_namespace ref = record {
  namespace = if is_empty ref.namespace then default_namespace else ref.namespace;
  name = ref.name;
}

-- `allKeys` and `keySet`
pub record Collected : Type 0 where
  pub all_keys : List Text
  pub key_set : Text → Bool

unfoldable pub add_key : Collected → Text → Collected
add_key c key = if c.key_set key then c else record {
  all_keys = c.all_keys ++ key ∷ [];
  key_set = λ k. if text_eq k key then true else c.key_set k;
}

-- the inner loop
unfoldable pub add_keys : Collected → List Text → Collected
add_keys c [] = c
add_keys c (key ∷ keys) = add_keys (add_key c key) keys

-- what follows the outer loop
unfoldable pub cut_to_threshold : ℤ → List Text → List Text
cut_to_threshold threshold keys =
    if ltb_ℤ (pos 0) threshold && ltb_ℤ threshold (pos (length keys))
    then take (pos_part threshold) keys
    else keys

unfoldable pub finish : ℤ → List Text → Result (List Text)
unfolding cut_to_threshold
finish threshold [] = err (new_error (codes "no unseal keys found in any referenced secrets"))
finish threshold (k ∷ ks) = ok (cut_to_threshold threshold (k ∷ ks))

-- the prefix of the error that ends the outer loop
unfoldable pub load_failure : SecretRef → Text
load_failure ref =
    codes "failed to load keys from secret "
    ++ (ref.namespace ++ (codes "/" ++ (ref.name ++ codes ": ")))

module _ (env : Env) where
  keys_in : Text → Result SecretData → Result (List Text)
  keys_in key (err e) = err (wrap (codes "failed to get secret: ") e)
  keys_in key (ok found) = elim (lookup key found) [
    | none ↦ err (new_error (codes "key " ++ (key ++ codes " not found in secret")))
    | some data' ↦ parse_keys env.json_message data'
  ]

  unfoldable pub load_keys_from_secret : Text → SecretRef → Prog (Result (List Text))
  unfolding keys_in
  load_keys_from_secret default_namespace ref = do
    let id = namespaced_name default_namespace ref
    found ← perform (get_secret id) (λ t. env.get_secret t id)
    pure (keys_in ref.key found)

  -- the outer loop, from `c`
  unfoldable pub collect : Text → List SecretRef → Collected → Prog (Result Collected)
  collect namespace [] c = pure (ok c)
  collect namespace (ref ∷ refs) c = do
    loaded ← load_keys_from_secret namespace ref
    elim loaded [
      | err e ↦ pure (err (wrap (load_failure ref) e))
      | ok keys ↦ collect namespace refs (add_keys c keys)
    ]

  finish_with : ℤ → Result Collected → Result (List Text)
  finish_with threshold (err e) = err e
  finish_with threshold (ok c) = finish threshold c.all_keys

  unfoldable pub load_unseal_keys : Text → List SecretRef → ℤ → Prog (Result (List Text))
  unfolding finish_with
  load_unseal_keys namespace refs threshold = do
    collected ← collect namespace refs (record { all_keys = []; key_set = λ k. false })
    pure (finish_with threshold collected)
