-- ===== src/Text/Space/Laws.antt =====
-- TrimSpace leaves a text with no space at either end, and such a text unchanged.
use mathlib.Core.List.{reverse, reverse-reverse, reverse-append, reverse-cons}
use vault_unsealer.Prelude.{
  ℕ, zero, suc, ◌<◌, ◌≤◌, ◌≡◌, ◌≢◌, refl, sym, ap, ◌∙◌, Bool, false, Option, none, some, [], ◌∷◌,
  ◌++◌, append_assoc, arith, length, length-append, Option-cases, inl, inr, Bool-cases,
}
use vault_unsealer.Text.{Text}
use vault_unsealer.Text.Space.{
  first, second, third, space_prefix, space_suffix, strip, trim_left, trim_right, trim_space,
  IsTrimmed,
}

-- What a cut leaves stands at the end of the text, behind a byte at least.
abbrev Shrinks : (Text → Option Text) → Type 0
Shrinks cut = (s r : Text) → cut s ≡ some r → (a : ℕ) × (x : Text) × (s ≡ a ∷ x ++ r)

-- More text behind does not hinder a cut.
abbrev Extends : (Text → Option Text) → Type 0
Extends cut = (s r x : Text) → cut s ≡ some r → cut (s ++ x) ≡ some (r ++ x)

-- A newline behind does not make one possible.
abbrev StopsAtNewline : (Text → Option Text) → Type 0
StopsAtNewline cut = (s x : Text) → s ≢ [] → cut s ≡ none → cut (s ++ 10 ∷ x) ≡ none

module _ (t1 : ℕ → Bool) (t2 : ℕ → ℕ → Bool) (t3 : ℕ → ℕ → ℕ → Bool) where
  first-Shrinks : Shrinks (first t1 t2 t3)
  unfolding first second third
  first-Shrinks [] r e = cc
  first-Shrinks (a ∷ []) r e = (a, [], ground arith)
  first-Shrinks (a ∷ b ∷ []) r e = elim (Bool-cases (t1 a)) [
    | inl y ↦ (a, [], ground arith)
    | inr n ↦ (a, b ∷ [], ground arith)
  ]
  first-Shrinks (a ∷ b ∷ c ∷ s) r e = elim (Bool-cases (t1 a)) [
    | inl y ↦ (a, [], ground arith)
    | inr n ↦ elim (Bool-cases (t2 a b)) [
      | inl y ↦ (a, b ∷ [], ground arith)
      | inr m ↦ (a, b ∷ c ∷ [], ground arith)
    ]
  ]

  first-Extends : Extends (first t1 t2 t3)
  unfolding first second third
  first-Extends [] r x e = cc
  first-Extends (a ∷ []) r x e = ground arith
  first-Extends (a ∷ b ∷ []) r x e = ground arith
  first-Extends (a ∷ b ∷ c ∷ s) r x e = ground arith

  module _ (n2 : (a : ℕ) → t2 a 10 ≡ false) (n3 : (a b : ℕ) → t3 a b 10 ≡ false)
      (m3 : (a b : ℕ) → t3 a 10 b ≡ false) where
    first-StopsAtNewline : StopsAtNewline (first t1 t2 t3)
    unfolding first second third
    first-StopsAtNewline [] x p e = absurd (p refl)
    first-StopsAtNewline (a ∷ []) [] p e = ground (arith, n2 a)
    first-StopsAtNewline (a ∷ []) (b ∷ x) p e = ground (arith, n2 a, m3 a b)
    first-StopsAtNewline (a ∷ b ∷ []) x p e = ground (arith, n3 a b)
    first-StopsAtNewline (a ∷ b ∷ c ∷ s) x p e = ground arith

module _ (cut : Text → Option Text) (shrinks : Shrinks cut) where
  length-cut : (s r : Text) → cut s ≡ some r → length r < length s
  length-cut s r e =
      let (a, x, split) = shrinks s r e in omega (arith, ap length split, length-append x r)

  cut-nil : cut [] ≡ none
  cut-nil = elim (Option-cases (cut [])) [
    | inl e ↦ e
    | inr (r, e) ↦ absurd (omega (arith, length-cut [] r e))
  ]

  cut-strip : (fuel : ℕ) (s : Text) → length s ≤ fuel → cut (strip cut fuel s) ≡ none
  unfolding strip
  cut-strip zero [] h = cut-nil
  cut-strip zero (a ∷ s) h = absurd (omega arith)
  cut-strip (suc fuel) s h = elim (Option-cases (cut s)) [
    | inl e ↦ ground arith
    | inr (r, e) ↦ rw (e, strip) (cut-strip fuel r (omega (arith, length-cut s r e)))
  ]

  strip-tail : (fuel : ℕ) (s : Text) → (x : Text) × (s ≡ x ++ strip cut fuel s)
  unfolding strip
  strip-tail zero s = ([], refl)
  strip-tail (suc fuel) s = elim (Option-cases (cut s)) [
    | inl e ↦ ([], rw (e, strip))
    | inr (r, e) ↦
        let (a, x, split) = shrinks s r e in
        let (y, ih) = strip-tail fuel r in
        (a ∷ x ++ y, rw (e, strip) (split ∙ ap (λ t. a ∷ x ++ t) ih ∙ rw append_assoc))
  ]

  strip_of_none : (fuel : ℕ) (s : Text) → cut s ≡ none → strip cut fuel s ≡ s
  unfolding strip
  strip_of_none zero s e = refl
  strip_of_none (suc fuel) s e = rw (e, strip)

length-reverse : (s : Text) → length (reverse s) ≡ length s
length-reverse [] = refl
length-reverse (a ∷ s) =
    rw (reverse-cons a s) (omega (arith, length-append (reverse s) (a ∷ []), length-reverse s))

pub space_prefix-Extends : Extends space_prefix
unfolding space_prefix
space_prefix-Extends = first-Extends _ _ _

pub space_prefix-StopsAtNewline : StopsAtNewline space_prefix
unfolding space_prefix
space_prefix-StopsAtNewline =
    first-StopsAtNewline _ _ _ (λ a. ground arith) (λ a b. ground arith) (λ a b. ground arith)

pub space_suffix-StopsAtNewline : StopsAtNewline space_suffix
unfolding space_suffix
space_suffix-StopsAtNewline =
    first-StopsAtNewline _ _ _ (λ a. ground arith) (λ a b. ground arith) (λ a b. ground arith)

prefix-Shrinks : Shrinks space_prefix
unfolding space_prefix
prefix-Shrinks = first-Shrinks _ _ _

suffix-Shrinks : Shrinks space_suffix
unfolding space_suffix
suffix-Shrinks = first-Shrinks _ _ _

trim_right-IsTrimmed : (t : Text) → space_prefix t ≡ none → IsTrimmed (trim_right t)
unfolding trim_right
trim_right-IsTrimmed t h =
    let u = strip space_suffix (length t) (reverse t) in
    let (x, tail) = strip-tail space_suffix suffix-Shrinks (length t) (reverse t) in
    let whole : t ≡ reverse u ++ reverse x =
      sym (reverse-reverse t) ∙ ap reverse tail ∙ reverse-append x u in
    record {
      left = elim (Option-cases (space_prefix (reverse u))) [
        | inl e ↦ e
        | inr (r, e) ↦
            let more = space_prefix-Extends (reverse u) r (reverse x) e in
            cc (ap space_prefix whole)
      ];
      right = rw (reverse-reverse u) (
          cut-strip space_suffix suffix-Shrinks (length t) (reverse t)
            (omega (arith, length-reverse t)));
    }

pub trim_space-IsTrimmed : (s : Text) → IsTrimmed (trim_space s)
unfolding trim_space trim_left
trim_space-IsTrimmed s =
    trim_right-IsTrimmed (strip space_prefix (length s) s)
      (cut-strip space_prefix prefix-Shrinks (length s) s (omega arith))

pub trim_space_of_IsTrimmed : (s : Text) → IsTrimmed s → trim_space s ≡ s
unfolding trim_space trim_left trim_right
trim_space_of_IsTrimmed s h =
    rw
      (
        strip_of_none space_prefix prefix-Shrinks (length s) s h.left,
        strip_of_none space_suffix suffix-Shrinks (length s) (reverse s) h.right,
      )
      (reverse-reverse s)
