-- ===== src/Text/Space.antt =====
-- strings.TrimSpace on the bytes of a string: the encodings of the code points that
-- unicode.IsSpace accepts are cut off at both ends. A byte that belongs to no valid encoding decodes
-- to U+FFFD, which is no space, and stays.
use mathlib.Core.List.{reverse}
use vault_unsealer.Prelude.{
  ℕ, zero, suc, Bool, ◌&&◌, ◌||◌, [], ◌∷◌, Option, none, some, length, leb, ◌==◌, if◌then◌else◌,
  ◌≡◌,
}
use vault_unsealer.Text.{Text}
pub mod Laws

-- \t \n \v \f \r and the space
is_space_1 : ℕ → Bool
is_space_1 a = leb 9 a && leb a 13 || a == 32

-- U+0085 and U+00A0
is_space_2 : ℕ → ℕ → Bool
is_space_2 a b = a == 0xc2 && (b == 0x85 || b == 0xa0)

-- U+1680, U+2000 to U+200A, U+2028, U+2029, U+202F, U+205F and U+3000
is_space_3 : ℕ → ℕ → ℕ → Bool
is_space_3 a b c =
    (a == 0xe1 && b == 0x9a && c == 0x80)
    || (a == 0xe2
        && b == 0x80
        && ((leb 0x80 c && leb c 0x8a) || c == 0xa8 || c == 0xa9 || c == 0xaf))
    || (a == 0xe2 && b == 0x81 && c == 0x9f)
    || (a == 0xe3 && b == 0x80 && c == 0x80)

-- What follows a first code point of one, two or three bytes that passes its test, if it does.
module _ (test_1 : ℕ → Bool) (test_2 : ℕ → ℕ → Bool) (test_3 : ℕ → ℕ → ℕ → Bool) where
  third : ℕ → ℕ → Text → Option Text
  third a b [] = none
  third a b (c ∷ s) = if test_3 a b c then some s else none

  second : ℕ → Text → Option Text
  second a [] = none
  second a (b ∷ s) = if test_2 a b then some s else third a b s

  first : Text → Option Text
  unfolding second third
  first [] = none
  first (a ∷ s) = if test_1 a then some s else second a s

-- The text behind a leading space, if there is one.
unfoldable pub space_prefix : Text → Option Text
unfolding first is_space_1 is_space_2 is_space_3
space_prefix = first is_space_1 is_space_2 is_space_3

-- The same for a trailing space, on the reversed bytes.
unfoldable pub space_suffix : Text → Option Text
unfolding first is_space_1 is_space_2 is_space_3
space_suffix = first is_space_1 (λ c b. is_space_2 b c) (λ c b a. is_space_3 a b c)

-- Cut as often as possible, at most `fuel` times; every cut takes a byte at least, so the length of
-- the text is enough.
strip : (Text → Option Text) → ℕ → Text → Text
strip cut zero s = s
strip cut (suc fuel) s = elim (cut s) [ none ↦ s | some rest ↦ strip cut fuel rest ]

trim_left : Text → Text
trim_left s = strip space_prefix (length s) s

trim_right : Text → Text
trim_right s = reverse (strip space_suffix (length s) (reverse s))

unfoldable pub trim_space : Text → Text
unfolding trim_left trim_right strip space_prefix space_suffix
trim_space s = trim_right (trim_left s)

-- Neither end is a space.
pub record IsTrimmed (s : Text) : Type 0 where
  pub left : space_prefix s ≡ none
  pub right : space_suffix (reverse s) ≡ none
