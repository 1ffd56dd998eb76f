-- ===== src/Text.antt =====
-- Go strings as lists of bytes, with the comparisons of the language and of package strings.
pub mod Space
pub mod Lines
pub mod Decimal
pub mod Runes
pub mod Replace
use Prim.Native.Char.{code}
use mathlib.Core.List.{reverse}
use vault_unsealer.Prelude.{
  ℕ, ◌≡◌, refl, ◌↔◌, Bool, true, false, ◌&&◌, List, [], ◌∷◌, String, arith, ◌==◌,
}

abbrev pub Text : Type 0
Text = List ℕ

-- The bytes of an ASCII literal.
abbrev pub codes : String → Text
codes String.[] = []
codes (String.◌∷◌ c s) = code c ∷ codes s

unfoldable pub text_eq : Text → Text → Bool
text_eq [] [] = true
text_eq (a ∷ s) (b ∷ t) = a == b && text_eq s t
text_eq _ _ = false

pub text_eq_refl : (s : Text) → text_eq s s ≡ true
unfolding text_eq
text_eq_refl [] = refl
text_eq_refl (a ∷ s) = ground (arith, text_eq_refl s)

pub eq_of_text_eq : (s t : Text) → text_eq s t ≡ true → s ≡ t
unfolding text_eq
eq_of_text_eq [] [] h = refl
eq_of_text_eq [] (b ∷ t) h = cc
eq_of_text_eq (a ∷ s) [] h = cc
eq_of_text_eq (a ∷ s) (b ∷ t) h = ground (arith, eq_of_text_eq s t)

pub text_eq_iff : (s t : Text) → (text_eq s t ≡ true) ↔ (s ≡ t)
text_eq_iff s t = (eq_of_text_eq s t, λ e. rw e (text_eq_refl t))

-- `s == ""`
abbrev pub is_empty : Text → Bool
is_empty [] = true
is_empty (a ∷ s) = false

-- strings.HasPrefix(s, p), with the prefix first
unfoldable pub has_prefix : Text → Text → Bool
has_prefix [] s = true
has_prefix (a ∷ p) [] = false
has_prefix (a ∷ p) (b ∷ s) = a == b && has_prefix p s

-- strings.HasSuffix(s, p), with the suffix first
unfoldable pub has_suffix : Text → Text → Bool
unfolding has_prefix
has_suffix p s = has_prefix (reverse p) (reverse s)
