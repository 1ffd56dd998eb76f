-- ===== src/Webhook/Names/Laws.antt =====
-- What the tests on names and selectors accept, in terms of the bytes.
use vault_unsealer.Prelude.{
  ℕ, zero, suc, ◌+◌, ◌≤◌, ◌≡◌, refl, ◌↔◌, ◌⊎◌, ◌≢◌, true, false, ◌&&◌, ◌||◌, [], ◌∷◌, ◌++◌, ltb,
  leb, all, All, length, arith, Bool, inl, inr,
}
use vault_unsealer.Text.{Text, codes}
use vault_unsealer.Text.Runes.{runes, all-runes}
use vault_unsealer.Webhook.Names.{
  is_alphanumeric, last_byte, is_name_rune, is_valid_kubernetes_name, valid_chars, contains_rune,
  is_valid_label_selector,
}

abbrev pub IsAlphanumeric : ℕ → Type 0
IsAlphanumeric c =
    ((b'a' ≤ c) × (c ≤ b'z')) ⊎ (((b'A' ≤ c) × (c ≤ b'Z')) ⊎ ((b'0' ≤ c) × (c ≤ b'9')))

abbrev pub IsNameByte : ℕ → Type 0
IsNameByte c = IsAlphanumeric c ⊎ ((c ≡ b'-') ⊎ (c ≡ b'.'))

-- At most 253 letters, digits, hyphens and dots, the first and the last a letter or a digit.
abbrev pub IsKubernetesName : Text → Type 0
IsKubernetesName [] = ⊥
IsKubernetesName (a ∷ s) =
    (length (a ∷ s) ≤ 253)
    × IsAlphanumeric a
    × IsAlphanumeric (last_byte a s)
    × All IsNameByte (a ∷ s)

is_alphanumeric_iff : (c : ℕ) → (is_alphanumeric c ≡ true) ↔ IsAlphanumeric c
unfolding is_alphanumeric
is_alphanumeric_iff c = ground arith

is_name_rune_iff : (c : ℕ) → (is_name_rune c ≡ true) ↔ IsNameByte c
unfolding is_name_rune is_alphanumeric
is_name_rune_iff c = ground arith

all_iff : (s : Text) → (all is_name_rune s ≡ true) ↔ All IsNameByte s
all_iff [] = (λ h. tt, λ h. refl)
all_iff (c ∷ s) = ground (arith, all_iff s, is_name_rune_iff c)

all_name-runes : (s : Text) → all is_name_rune (runes s) ≡ all is_name_rune s
all_name-runes s =
    all-runes is_name_rune s (λ r h. unfold is_name_rune is_alphanumeric in ground arith)

-- isValidKubernetesName accepts exactly the names of at most 253 bytes, each an ASCII letter of
-- either case, a digit, a hyphen or a dot, whose first and last are letters or digits.
pub is_valid_kubernetes_name_iff :
    (name : Text) → (is_valid_kubernetes_name name ≡ true) ↔ IsKubernetesName name
unfolding is_valid_kubernetes_name
is_valid_kubernetes_name_iff [] = (λ e. cc, λ h. absurd h)
is_valid_kubernetes_name_iff (a ∷ s) =
    rw (all_name-runes (a ∷ s))
      (ground (arith, all_iff (a ∷ s), is_alphanumeric_iff a, is_alphanumeric_iff (last_byte a s)))

contains_rune-high :
    (s : Text) (r : ℕ) → all (λ c. ltb c 0x80) s ≡ true → 0x80 ≤ r → contains_rune s r ≡ false
unfolding contains_rune
contains_rune-high [] r h k = refl
contains_rune-high (c ∷ s) r h k = ground (arith, contains_rune-high s r)

-- The bytes of a selector: letters, digits, and six signs.
abbrev pub IsSelectorByte : ℕ → Type 0
IsSelectorByte c =
    IsAlphanumeric c ⊎ ((c ≡ b'-') ⊎ (c ≡ b'_') ⊎ (c ≡ b'.') ⊎ (c ≡ b'=') ⊎ (c ≡ b'/') ⊎ (c ≡ b','))

-- Consecutive bytes.
abbrev range : ℕ → ℕ → Text
range a zero = []
range a (suc n) = a ∷ range (suc a) n

contains_rune-range :
    (a n c : ℕ) (s : Text)
    → contains_rune (range a n ++ s) c ≡ (leb a c && ltb c (a + n) || contains_rune s c)
unfolding contains_rune
contains_rune-range a zero c s = ground arith
contains_rune-range a (suc n) c s = ground (arith, contains_rune-range (suc a) n c s)

-- The six signs.
abbrev IsSign : ℕ → Type 0
IsSign c = (c ≡ b'-') ⊎ (c ≡ b'_') ⊎ (c ≡ b'.') ⊎ (c ≡ b'=') ⊎ (c ≡ b'/') ⊎ (c ≡ b',')

abbrev signs : Text
signs = codes "-_.=/,"

signs_iff : (c : ℕ) → (contains_rune signs c ≡ true) ↔ IsSign c
unfolding contains_rune
signs_iff c = ground arith

or_iff {ℓ κ} :
    {P : Type ℓ} {Q : Type κ} (p q : Bool)
    → (p ≡ true) ↔ P
    → (q ≡ true) ↔ Q
    → ((p || q) ≡ true) ↔ (P ⊎ Q)
or_iff true q hp hq = (λ e. inl (hp.0 refl), λ h. refl)
or_iff false q hp hq =
    (λ e. inr (hq.0 e), λ h. elim h [ inl x ↦ let e = hp.1 x in cc | inr y ↦ hq.1 y ])

-- The three ranges, each a test of its own.
ranges-is_alphanumeric :
    (c : ℕ) (b : Bool)
    → (leb b'a' c && ltb c (b'a' + 26)
        || (leb b'A' c && ltb c (b'A' + 26) || (leb b'0' c && ltb c (b'0' + 10) || b)))
      ≡ (is_alphanumeric c || b)
unfolding is_alphanumeric
ranges-is_alphanumeric c b = ground arith

contains_rune-valid_chars :
    (c : ℕ) → contains_rune valid_chars c ≡ (is_alphanumeric c || contains_rune signs c)
contains_rune-valid_chars c =
    let digits = contains_rune-range b'0' 10 c signs in
    let upper = contains_rune-range b'A' 26 c (range b'0' 10 ++ signs) in
    let lower = contains_rune-range b'a' 26 c (range b'A' 26 ++ (range b'0' 10 ++ signs)) in
    rw (lower, upper, digits) (ranges-is_alphanumeric c (contains_rune signs c))

contains_rune-valid_chars_iff : (c : ℕ) → (contains_rune valid_chars c ≡ true) ↔ IsSelectorByte c
contains_rune-valid_chars_iff c =
    rw (contains_rune-valid_chars c) (or_iff _ _ (is_alphanumeric_iff c) (signs_iff c))

all-contains_rune_iff :
    (s : Text) → (all (contains_rune valid_chars) s ≡ true) ↔ All IsSelectorByte s
all-contains_rune_iff [] = (λ h. tt, λ h. refl)
all-contains_rune_iff (c ∷ s) =
    ground (arith, all-contains_rune_iff s, contains_rune-valid_chars_iff c)

-- isValidLabelSelector accepts exactly the texts that are not empty and consist of ASCII letters,
-- digits, and the signs - _ . = / and the comma.
pub is_valid_label_selector_iff :
    (selector : Text)
    → (is_valid_label_selector selector ≡ true) ↔ ((selector ≢ []) × All IsSelectorByte selector)
unfolding is_valid_label_selector
is_valid_label_selector_iff [] = (λ e. cc, λ h. absurd (h.0 refl))
is_valid_label_selector_iff (a ∷ s) =
    rw (all-runes (contains_rune valid_chars) (a ∷ s) (λ r. contains_rune-high valid_chars r refl))
      (
        λ e. (λ e'. cc, (all-contains_rune_iff (a ∷ s)).0 e),
        λ h. (all-contains_rune_iff (a ∷ s)).1 h.1,
      )
