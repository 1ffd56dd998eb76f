-- ===== src/Secrets/Keys/Arrays.antt =====
-- A secret that holds a JSON array of strings.
use mathlib.Core.List.{reverse, reverse-append}
use vault_unsealer.Prelude.{
  ◌≡◌, refl, sym, ap, ◌∙◌, true, List, [], ◌∷◌, ◌++◌, append_assoc, none, All, arith,
}
use vault_unsealer.Text.{Text, has_prefix, has_suffix}
use vault_unsealer.Text.Space.{space_prefix, space_suffix, IsTrimmed}
use vault_unsealer.Text.Space.Laws.{trim_space_of_IsTrimmed}
use vault_unsealer.Result.{ok}
use vault_unsealer.Json.Laws.{IsPlain, json_array, more, unmarshal-json_array}
use vault_unsealer.Secrets.Keys.{is_bracketed, from_json, parse_keys}

-- The array without its last byte.
body_more : List Text → Text
body_more [] = []
body_more (k ∷ ks) = b',' ∷ b'"' ∷ k ++ b'"' ∷ body_more ks

body : List Text → Text
body [] = b'[' ∷ []
body (k ∷ ks) = b'[' ∷ b'"' ∷ k ++ b'"' ∷ body_more ks

more-ends : (ks : List Text) → more ks ≡ body_more ks ++ b']' ∷ []
unfolding body_more
more-ends [] = refl
more-ends (k ∷ ks) =
    ap (λ s. b',' ∷ b'"' ∷ k ++ b'"' ∷ s) (more-ends ks)
    ∙ ap (λ s. b',' ∷ b'"' ∷ s) (sym (append_assoc k (b'"' ∷ body_more ks) (b']' ∷ [])))

json_array-ends : (ks : List Text) → json_array ks ≡ body ks ++ b']' ∷ []
unfolding body
json_array-ends [] = refl
json_array-ends (k ∷ ks) =
    ap (λ s. b'[' ∷ b'"' ∷ k ++ b'"' ∷ s) (more-ends ks)
    ∙ ap (λ s. b'[' ∷ b'"' ∷ s) (sym (append_assoc k (b'"' ∷ body_more ks) (b']' ∷ [])))

reverse-json_array : (ks : List Text) → reverse (json_array ks) ≡ b']' ∷ reverse (body ks)
reverse-json_array ks = ap reverse (json_array-ends ks) ∙ reverse-append (body ks) (b']' ∷ [])

opening : (s : Text) → space_prefix (b'[' ∷ s) ≡ none
unfolding space_prefix
opening [] = refl
opening (b ∷ []) = ground arith
opening (b ∷ c ∷ s) = ground arith

closing : (s : Text) → space_suffix (b']' ∷ s) ≡ none
unfolding space_suffix
closing [] = refl
closing (b ∷ []) = ground arith
closing (b ∷ c ∷ s) = ground arith

left_end : (ks : List Text) → space_prefix (json_array ks) ≡ none
left_end [] = opening _
left_end (k ∷ ks) = opening _

json_array-IsTrimmed : (ks : List Text) → IsTrimmed (json_array ks)
json_array-IsTrimmed ks = record {
  left = left_end ks;
  right = rw (reverse-json_array ks) (closing (reverse (body ks)));
}

prefix_test : (ks : List Text) → has_prefix (b'[' ∷ []) (json_array ks) ≡ true
unfolding has_prefix
prefix_test [] = refl
prefix_test (k ∷ ks) = refl

json_array-is_bracketed : (ks : List Text) → is_bracketed (json_array ks) ≡ true
unfolding is_bracketed has_suffix has_prefix
json_array-is_bracketed ks = rw (prefix_test ks, reverse-json_array ks)

-- Keys of printable ASCII characters other than the quote and the backslash, written as a JSON
-- array, are read back as they are, even when there are none.
pub parse_keys-json_array :
    (json_message : Text → Text) (ks : List Text)
    → All IsPlain ks
    → parse_keys json_message (json_array ks) ≡ ok ks
unfolding parse_keys from_json
parse_keys-json_array json_message ks h = rw (
  trim_space_of_IsTrimmed _ (json_array-IsTrimmed ks),
  json_array-is_bracketed ks,
  from_json,
  unmarshal-json_array ks h,
)
