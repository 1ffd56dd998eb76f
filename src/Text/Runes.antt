-- ===== src/Text/Runes.antt =====
-- The code points of a string, as `for _, r := range s` decodes them: a byte that starts no valid
-- UTF-8 encoding gives U+FFFD and is passed alone.
use vault_unsealer.Prelude.{
  ℕ, zero, suc, ◌+◌, ◌*◌, ◌%◌, ◌≤◌, ◌≡◌, refl, Bool, false, ◌&&◌, List, [], ◌∷◌, all, arith, leb,
  ltb, ◌==◌, if◌then◌else◌, true, Bool-cases, inl, inr, ap,
}
use vault_unsealer.Text.{Text}

abbrev pub rune_error : ℕ
rune_error = 0xfffd

-- min ≤ b ≤ max
abbrev within : ℕ → ℕ → ℕ → Bool
within lo hi b = leb lo b && leb b hi

-- The second byte of an encoding of three bytes, and of four, whose first byte is `a`: no overlong
-- form, no surrogate and nothing above U+10FFFF.
second_of_3 : ℕ → ℕ → Bool
second_of_3 a b =
    if a == 0xe0
    then within 0xa0 0xbf b
    else if a == 0xed
    then within 0x80 0x9f b
    else within 0xe1 0xef a && within 0x80 0xbf b

second_of_4 : ℕ → ℕ → Bool
second_of_4 a b =
    if a == 0xf0
    then within 0x90 0xbf b
    else if a == 0xf4
    then within 0x80 0x8f b
    else within 0xf1 0xf3 a && within 0x80 0xbf b

-- The rune that starts with the given bytes, and the number of bytes that it has behind its first.
decode_4 : ℕ → ℕ → ℕ → Text → ℕ × ℕ
decode_4 a b c [] = (rune_error, 0)
decode_4 a b c (d ∷ s) =
    if second_of_4 a b && within 0x80 0xbf c && within 0x80 0xbf d
    then (a % 8 * 262144 + b % 64 * 4096 + c % 64 * 64 + d % 64, 3)
    else (rune_error, 0)

decode_3 : ℕ → ℕ → Text → ℕ × ℕ
decode_3 a b [] = (rune_error, 0)
decode_3 a b (c ∷ s) =
    if second_of_3 a b && within 0x80 0xbf c
    then (a % 16 * 4096 + b % 64 * 64 + c % 64, 2)
    else decode_4 a b c s

decode_2 : ℕ → Text → ℕ × ℕ
decode_2 a [] = (rune_error, 0)
decode_2 a (b ∷ s) =
    if within 0xc2 0xdf a && within 0x80 0xbf b then (a % 32 * 64 + b % 64, 1) else decode_3 a b s

unfoldable pub decode : ℕ → Text → ℕ × ℕ
unfolding decode_2 decode_3 decode_4 second_of_3 second_of_4
decode a s = if ltb a 0x80 then (a, 0) else decode_2 a s

-- `skip` bytes belong to the rune that was decoded last.
runes_from : ℕ → Text → List ℕ
runes_from skip [] = []
runes_from zero (a ∷ s) = let (rune, behind) = decode a s in rune ∷ runes_from behind s
runes_from (suc skip) (a ∷ s) = runes_from skip s

unfoldable pub runes : Text → List ℕ
unfolding runes_from decode
runes s = runes_from 0 s

pub decode_ascii : (a : ℕ) (s : Text) → ltb a 0x80 ≡ true → decode a s ≡ (a, 0)
unfolding decode
decode_ascii a s h = rw h

second_of_3-high : (a b : ℕ) → second_of_3 a b ≡ true → 0x80 ≤ a % 16 * 4096 + b % 64 * 64
unfolding second_of_3
second_of_3-high a b h = ground arith

second_of_4-high : (a b : ℕ) → second_of_4 a b ≡ true → 0x80 ≤ a % 8 * 262144 + b % 64 * 4096
unfolding second_of_4
second_of_4-high a b h = ground arith

decode_4-high : (a b c : ℕ) (s : Text) → 0x80 ≤ (decode_4 a b c s).0
unfolding decode_4
decode_4-high a b c [] = omega arith
decode_4-high a b c (d ∷ s) = ground (arith, second_of_4-high a b)

decode_3-high : (a b : ℕ) (s : Text) → 0x80 ≤ (decode_3 a b s).0
unfolding decode_3
decode_3-high a b [] = omega arith
decode_3-high a b (c ∷ s) = ground (arith, second_of_3-high a b, decode_4-high a b c s)

decode_2-high : (a : ℕ) (s : Text) → 0x80 ≤ (decode_2 a s).0
unfolding decode_2
decode_2-high a [] = omega arith
decode_2-high a (b ∷ s) = ground (arith, decode_3-high a b s)

-- A byte of an encoding of several bytes, or of none, never decodes to an ASCII character.
decode_high : (a : ℕ) (s : Text) → ltb a 0x80 ≡ false → 0x80 ≤ (decode a s).0
unfolding decode
decode_high a s h = rw h (decode_2-high a s)

-- A test that no rune above ASCII passes may as well be made on the bytes.
pub all-runes :
    (p : ℕ → Bool) (s : Text) → ((r : ℕ) → 0x80 ≤ r → p r ≡ false) → all p (runes s) ≡ all p s
unfolding runes
all-runes p [] h = refl
all-runes p (a ∷ s) h = elim (Bool-cases (ltb a 0x80)) [
  | inl low ↦ rw (low, decode) (ap (λ b. p a && b) (all-runes p s h))
  | inr high ↦ rw (h (decode a s).0 (decode_high a s high), h a (ground arith))
]

euro_and_broken :
    runes (0x61 ∷ 0xe2 ∷ 0x82 ∷ 0xac ∷ 0xc3 ∷ 0x28 ∷ []) ≡ 0x61 ∷ 0x20ac ∷ 0xfffd ∷ 0x28 ∷ []
unfolding runes
euro_and_broken = refl
