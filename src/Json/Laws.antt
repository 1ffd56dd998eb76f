-- ===== src/Json/Laws.antt =====
-- What json.Unmarshal gives back for an array of strings without escapes.
use mathlib.Core.List.{reverse, reverse-cons}
use vault_unsealer.Prelude.{
  ℕ, ◌≤◌, ◌<◌, ◌≡◌, ◌≢◌, refl, ◌∙◌, List, [], ◌∷◌, ◌++◌, append-nil, append_assoc, none, some, All,
  arith,
}
use vault_unsealer.Text.{Text, codes}
use vault_unsealer.Text.Runes.{decode_ascii}
use vault_unsealer.Json.{
  element, inside, next, scan, character, encode, unmarshal, begin_value, is_blank,
}

-- Printable ASCII but the quote and the backslash.
abbrev pub IsPlainByte : ℕ → Type 0
IsPlainByte c = (0x20 ≤ c) × (c < 0x80) × (c ≢ b'"') × (c ≢ b'\\')

abbrev pub IsPlain : Text → Type 0
IsPlain = All IsPlainByte

abbrev pub quote : Text → Text
quote key = b'"' ∷ key ++ b'"' ∷ []

-- What follows an element.
abbrev pub more : List Text → Text
more [] = b']' ∷ []
more (k ∷ ks) = b',' ∷ b'"' ∷ k ++ b'"' ∷ more ks

abbrev pub json_array : List Text → Text
json_array [] = codes "[]"
json_array (k ∷ ks) = b'[' ∷ b'"' ∷ k ++ b'"' ∷ more ks

character_plain : (c : ℕ) (s : Text) → IsPlainByte c → character c s ≡ some (c ∷ [], 0)
unfolding character encode
character_plain c s h = ground (arith, decode_ascii c s)

next_plain :
    (c : ℕ) (s text : Text) (keys : List Text)
    → IsPlainByte c
    → next (inside 0 text) keys c s ≡ some (inside 0 (text ++ c ∷ []), keys)
unfolding next
next_plain c s text keys h = ground (arith, character_plain c s)

scan_string :
    (k text rest : Text) (keys : List Text)
    → IsPlain k
    → scan (inside 0 text) keys (k ++ b'"' ∷ rest) ≡ scan element ((text ++ k) ∷ keys) rest
unfolding scan
scan_string [] text rest keys h = unfold next in rw append-nil
scan_string (c ∷ k) text rest keys h =
    rw (next_plain c (k ++ b'"' ∷ rest) text keys h.0, scan)
      (scan_string k (text ++ c ∷ []) rest keys h.1 ∙ rw append_assoc)

scan-more :
    (ks keys : List Text) → All IsPlain ks → scan element keys (more ks) ≡ some (reverse keys ++ ks)
unfolding scan next begin_value is_blank
scan-more [] keys h = rw append-nil
scan-more (k ∷ ks) keys h =
    scan_string k [] (more ks) keys h.0
    ∙ scan-more ks (k ∷ keys) h.1
    ∙ rw (reverse-cons, append_assoc)

-- An array of plain keys is read back as it was written.
pub unmarshal-json_array : (ks : List Text) → All IsPlain ks → unmarshal (json_array ks) ≡ some ks
unfolding unmarshal
unmarshal-json_array [] h = refl
unmarshal-json_array (k ∷ ks) h = scan_string k [] (more ks) [] h.0 ∙ scan-more ks (k ∷ []) h.1

documents :
    (unmarshal (codes "[\"a\", null ,\"b\\u0041\\n\" ] ")
      ≡ some (codes "a" ∷ [] ∷ codes "bA\n" ∷ []))
    × (unmarshal (codes "[]") ≡ some [])
    × (unmarshal (codes "[1]") ≡ none)
    × (unmarshal (codes "[\"a\",]") ≡ none)
    × (unmarshal (codes "[\"a\"] x]") ≡ none)
    × (unmarshal (codes "[\"\\ud83d\\ude00\\ud800\"]")
        ≡ some ((0xf0 ∷ 0x9f ∷ 0x98 ∷ 0x80 ∷ 0xef ∷ 0xbf ∷ 0xbd ∷ []) ∷ []))
unfolding unmarshal
documents = (refl, refl, refl, refl, refl, refl)
