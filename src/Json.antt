-- ===== src/Json.antt =====
-- encoding/json as the operator uses it: json.Unmarshal of a text into a `[]string`
-- (internal/secrets/loader.go, parseKeys). One pass over the bytes by a machine with a mode.
-- Elements are strings and `null`, which leaves the zero value ""; any other element is a type
-- error, and what is no JSON is a syntax error: both are `none` here.
use mathlib.Core.List.{reverse}
use vault_unsealer.Prelude.{
  ℕ, zero, suc, ◌+◌, ◌-◌, ◌*◌, ◌/◌, ◌%◌, ◌≡◌, refl, Bool, true, false, ◌&&◌, ◌||◌, List, [], ◌∷◌,
  ◌++◌, Option, none, some, leb, ltb, ◌==◌, if◌then◌else◌,
}
use vault_unsealer.Text.{Text, codes}
use vault_unsealer.Text.Runes.{decode, rune_error}
pub mod Laws

-- utf8.AppendRune, for a code point that is no surrogate.
encode : ℕ → Text
encode r =
    if ltb r 0x80
    then r ∷ []
    else if ltb r 0x800
    then (0xc0 + r / 64) ∷ (0x80 + r % 64) ∷ []
    else if ltb r 0x10000
    then (0xe0 + r / 4096) ∷ (0x80 + r / 64 % 64) ∷ (0x80 + r % 64) ∷ []
    else (0xf0 + r / 262144) ∷ (0x80 + r / 4096 % 64) ∷ (0x80 + r / 64 % 64) ∷ (0x80 + r % 64) ∷ []

hex_digit : ℕ → Option ℕ
hex_digit c =
    if leb b'0' c && leb c b'9'
    then some (c - b'0')
    else if leb b'a' c && leb c b'f'
    then some (c - b'a' + 10)
    else if leb b'A' c && leb c b'F'
    then some (c - b'A' + 10)
    else none

-- The value of four hexadecimal digits.
hex_from : ℕ → ℕ → Text → Option ℕ
hex_from zero value s = some value
hex_from (suc n) value [] = none
hex_from (suc n) value (c ∷ s) = elim (hex_digit c) [
  | none ↦ none
  | some d ↦ hex_from n (value * 16 + d) s
]

-- `getu4`: the code unit of a `\uXXXX` at the head of the text.
unit_at : Text → Option ℕ
unit_at (b ∷ u ∷ s) = if b == b'\\' && u == b'u' then hex_from 4 0 s else none
unit_at _ = none

skip_4 : Text → Text
skip_4 (a ∷ b ∷ c ∷ d ∷ s) = s
skip_4 s = []

is_high : ℕ → Bool
is_high r = leb 0xd800 r && ltb r 0xdc00

is_low : ℕ → Bool
is_low r = leb 0xdc00 r && ltb r 0xe000

-- A low half behind a high one makes a pair of 12 bytes; a lone half gives U+FFFD.
pair_up : ℕ → Option ℕ → Text × ℕ
pair_up high none = (encode rune_error, 5)
pair_up high (some low) =
    if is_high high && is_low low
    then (encode (0x10000 + (high - 0xd800) * 0x400 + (low - 0xdc00)), 11)
    else (encode rune_error, 5)

-- The text behind `\u`: what it stands for, and the bytes behind the backslash that it takes.
unicode_escape : Text → Option (Text × ℕ)
unicode_escape s = elim (hex_from 4 0 s) [
  | none ↦ none
  | some r ↦ some (if is_high r || is_low r then pair_up r (unit_at (skip_4 s)) else (encode r, 5))
]

simple_escape : ℕ → Option ℕ
simple_escape c =
    if c == b'"' || c == b'\\' || c == b'/'
    then some c
    else if c == b'b'
    then some 8
    else if c == b'f'
    then some 12
    else if c == b'n'
    then some 10
    else if c == b'r'
    then some 13
    else if c == b't'
    then some 9
    else none

escape : Text → Option (Text × ℕ)
escape [] = none
escape (c ∷ s) =
    if c == b'u'
    then unicode_escape s
    else elim (simple_escape c) [ none ↦ none | some b ↦ some (b ∷ [], 1) ]

-- One character of a string literal: the bytes that it stands for, and the bytes to pass behind its
-- first. Control characters are refused, and broken UTF-8 is replaced by U+FFFD.
character : ℕ → Text → Option (Text × ℕ)
character c s =
    if c == b'\\'
    then escape s
    else if ltb c 0x20
    then none
    else let (r, behind) = decode c s in some (encode r, behind)

pub data Mode : Type 0 where
  -- before `[`; behind `[`; behind `,`; behind an element; behind `]`
  outside opened comma element closed : Mode
  -- in a string: bytes to pass, and the text so far
  inside : ℕ → Text → Mode
  -- in the word `null`: its bytes to come
  word : Text → Mode

is_blank : ℕ → Bool
is_blank c = c == 32 || c == 9 || c == 10 || c == 13

begin_value : ℕ → Option Mode
begin_value c =
    if c == b'"' then some (inside 0 []) else if c == b'n' then some (word (codes "ull")) else none

-- The mode behind the byte `c`, with `s` to follow, and the elements that are complete, last first.
next : Mode → List Text → ℕ → Text → Option (Mode × List Text)
next outside keys c s =
    if is_blank c then some (outside, keys) else if c == b'[' then some (opened, keys) else none
next opened keys c s =
    if is_blank c
    then some (opened, keys)
    else if c == b']'
    then some (closed, keys)
    else elim (begin_value c) [ none ↦ none | some m ↦ some (m, keys) ]
next comma keys c s =
    if is_blank c
    then some (comma, keys)
    else elim (begin_value c) [ none ↦ none | some m ↦ some (m, keys) ]
next element keys c s =
    if is_blank c
    then some (element, keys)
    else if c == b','
    then some (comma, keys)
    else if c == b']'
    then some (closed, keys)
    else none
next closed keys c s = if is_blank c then some (closed, keys) else none
next (inside (suc n) text) keys c s = some (inside n text, keys)
next (inside zero text) keys c s =
    if c == b'"' then some (element, text ∷ keys) else elim (character c s) [
      | none ↦ none
      | some (out, behind) ↦ some (inside behind (text ++ out), keys)
    ]
next (word []) keys c s = none
next (word (w ∷ [])) keys c s = if c == w then some (element, [] ∷ keys) else none
next (word (w ∷ v ∷ ws)) keys c s = if c == w then some (word (v ∷ ws), keys) else none

scan : Mode → List Text → Text → Option (List Text)
scan closed keys [] = some (reverse keys)
scan _ keys [] = none
scan m keys (c ∷ s) = elim (next m keys c s) [ none ↦ none | some (m', keys') ↦ scan m' keys' s ]

unfoldable pub unmarshal : Text → Option (List Text)
unfolding scan next begin_value character escape simple_escape unicode_escape pair_up is_high is_low
    skip_4 unit_at hex_from hex_digit encode is_blank decode
unmarshal s = scan outside [] s
