-- ===== src/Secrets/Keys.antt =====
-- internal/secrets/loader.go, parseKeys: the unseal keys in the data of a secret, written as a JSON
-- array of strings or one to a line.
pub mod Arrays
pub mod Format
use vault_unsealer.Prelude.{Bool, true, false, ◌&&◌, List, [], ◌∷◌, ◌++◌, none, some, if◌then◌else◌}
use vault_unsealer.Text.{Text, codes, is_empty, has_prefix, has_suffix}
use vault_unsealer.Text.Space.{trim_space}
use vault_unsealer.Text.Lines.{split_lines}
use vault_unsealer.Result.{Result, ok, err, new_error}
use vault_unsealer.Json.{unmarshal}

-- the loop over the lines
unfoldable pub trimmed_lines : List Text → List Text
trimmed_lines [] = []
trimmed_lines (line ∷ lines) =
    let rest = trimmed_lines lines in
    let key = trim_space line in if is_empty key then rest else key ∷ rest

non_empty : List Text → Result (List Text)
non_empty [] = err (new_error (codes "no keys found in secret data"))
non_empty (k ∷ ks) = ok (k ∷ ks)

unfoldable pub is_bracketed : Text → Bool
unfolding has_prefix has_suffix
is_bracketed data' = has_prefix (codes "[") data' && has_suffix (codes "]") data'

-- `json_message` words the error of json.Unmarshal.
module _ (json_message : Text → Text) where
  from_json : Text → Result (List Text)
  from_json data' = elim (unmarshal data') [
    | none ↦ err (new_error (codes "failed to parse JSON array: " ++ json_message data'))
    | some keys ↦ ok keys
  ]

  from_lines : Text → Result (List Text)
  unfolding non_empty trimmed_lines
  from_lines data' = non_empty (trimmed_lines (split_lines data'))

  unfoldable pub parse_keys : Text → Result (List Text)
  unfolding from_json from_lines is_bracketed trim_space
  parse_keys raw =
      let data' = trim_space raw in if is_bracketed data' then from_json data' else from_lines data'
