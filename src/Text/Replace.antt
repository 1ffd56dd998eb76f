-- ===== src/Text/Replace.antt =====
-- strings.Replace with the count 1, for a pattern that is not empty.
use vault_unsealer.Prelude.{
  ℕ, zero, suc, ◌≡◌, ◌≢◌, refl, ap, true, false, [], ◌∷◌, ◌++◌, length, All, arith, if◌then◌else◌,
}
use vault_unsealer.Text.{Text, has_prefix}

-- s[n:]
drop : ℕ → Text → Text
drop zero s = s
drop (suc n) [] = []
drop (suc n) (c ∷ s) = drop n s

unfoldable pub replace_once : Text → Text → Text → Text
unfolding drop has_prefix
replace_once old new [] = []
replace_once old new (c ∷ s) =
    let rest = replace_once old new s in
    if has_prefix old (c ∷ s) then new ++ drop (length old) (c ∷ s) else c ∷ rest

abbrev pub Lacks : ℕ → Text → Type 0
Lacks c = All (λ b. c ≢ b)

has_prefix_lacks : (c b : ℕ) (old s : Text) → c ≢ b → has_prefix (c ∷ old) (b ∷ s) ≡ false
unfolding has_prefix
has_prefix_lacks c b old s h = ground arith

-- Nothing is replaced in a text that lacks the first byte of the pattern.
pub replace_once-Lacks : (c : ℕ) (old new s : Text) → Lacks c s → replace_once (c ∷ old) new s ≡ s
unfolding replace_once
replace_once-Lacks c old new [] h = refl
replace_once-Lacks c old new (b ∷ s) h =
    rw (has_prefix_lacks c b old s h.0, replace_once)
      (ap (λ t. b ∷ t) (replace_once-Lacks c old new s h.1))

-- A part in front that lacks the first byte stays.
pub replace_once-append :
    (c : ℕ) (old new s t : Text)
    → Lacks c s
    → replace_once (c ∷ old) new (s ++ t) ≡ s ++ replace_once (c ∷ old) new t
unfolding replace_once
replace_once-append c old new [] t h = refl
replace_once-append c old new (b ∷ s) t h =
    rw (has_prefix_lacks c b old (s ++ t) h.0, replace_once)
      (ap (λ u. b ∷ u) (replace_once-append c old new s t h.1))

drop-append : (old t : Text) → drop (length old) (old ++ t) ≡ t
unfolding drop
drop-append [] t = refl
drop-append (c ∷ old) t = drop-append old t

has_prefix-append : (p t : Text) → has_prefix p (p ++ t) ≡ true
unfolding has_prefix
has_prefix-append [] t = refl
has_prefix-append (c ∷ p) t = ground (arith, has_prefix-append p t)

-- A text that begins with the pattern.
pub replace_once_match :
    (c : ℕ) (old new t : Text) → replace_once (c ∷ old) new ((c ∷ old) ++ t) ≡ new ++ t
unfolding replace_once
replace_once_match c old new t =
    rw (has_prefix-append (c ∷ old) t, replace_once) (ap (λ u. new ++ u) (drop-append (c ∷ old) t))
