-- ===== src/Secrets/Loader/Distinct.antt =====
-- The loops of LoadUnsealKeys over the keys, against a plain definition of "without repetitions".
use mathlib.Core.List.Memᴰ
use vault_unsealer.Prelude.{
  ◌≡◌, ◌≢◌, refl, sym, ap, ◌∙◌, inl, inr, Bool, true, false, not, List, [], ◌∷◌, ◌++◌, append-nil,
  append_assoc, arith, Bool-cases, if◌then◌else◌, All, IsDistinct, Memᴰ,
}
use vault_unsealer.Text.{Text, text_eq, text_eq_iff}
use vault_unsealer.Secrets.Loader.{Collected, add_key, add_keys}

abbrev keep : (Text → Bool) → List Text → List Text
keep p [] = []
keep p (k ∷ ks) = let rest = keep p ks in if p k then k ∷ rest else rest

abbrev remove : Text → List Text → List Text
remove k = keep (λ j. not (text_eq j k))

-- Every key once, at its first place.
unfoldable pub first_occurrences : List Text → List Text
first_occurrences [] = []
first_occurrences (k ∷ ks) = k ∷ remove k (first_occurrences ks)

module _ (seen : Text → Bool) where
  keep_new : List Text → List Text
  keep_new = keep (λ k. not (seen k))

  keep_new-remove_seen :
      (k : Text) (ks : List Text) → seen k ≡ true → keep_new (remove k ks) ≡ keep_new ks
  unfolding keep_new
  keep_new-remove_seen k [] h = refl
  keep_new-remove_seen k (j ∷ ks) h = ground (arith, keep_new-remove_seen k ks h, text_eq_iff j k)

  keep_new-remove :
      (k : Text) (ks : List Text)
      → keep_new (remove k ks) ≡ keep (λ j. not (if text_eq j k then true else seen j)) ks
  unfolding keep_new
  keep_new-remove k [] = refl
  keep_new-remove k (j ∷ ks) = ground (arith, keep_new-remove k ks)

keep_all : (ks : List Text) → keep (λ k. true) ks ≡ ks
keep_all [] = refl
keep_all (k ∷ ks) = ap (λ l. k ∷ l) (keep_all ks)

add_key_seen : (c : Collected) (k : Text) → c.key_set k ≡ true → add_key c k ≡ c
unfolding add_key
add_key_seen c k h = rw h

abbrev with_key : Collected → Text → Collected
with_key c k = record {
  all_keys = c.all_keys ++ k ∷ [];
  key_set = λ j. if text_eq j k then true else c.key_set j;
}

add_key_new : (c : Collected) (k : Text) → c.key_set k ≡ false → add_key c k ≡ with_key c k
unfolding add_key
add_key_new c k h = rw h

all_keys-add_keys :
    (c : Collected) (ks : List Text)
    → (add_keys c ks).all_keys ≡ c.all_keys ++ keep_new c.key_set (first_occurrences ks)
unfolding add_keys first_occurrences
all_keys-add_keys c [] = unfold keep_new in sym (append-nil c.all_keys)
all_keys-add_keys c (k ∷ ks) = elim (Bool-cases (c.key_set k)) [
  | inl old ↦
      rw (add_key_seen c k old, add_keys)
        (all_keys-add_keys c ks
          ∙ ap (λ l. c.all_keys ++ l)
              (sym (keep_new-remove_seen c.key_set k (first_occurrences ks) old)
                ∙ (unfold keep_new in rw old)))
  | inr new ↦
      rw (add_key_new c k new, add_keys)
        (all_keys-add_keys (with_key c k) ks
          ∙ rw append_assoc (
              ap (λ l. c.all_keys ++ l)
                (unfold keep_new in
                  rw (new)
                    (ap (λ l. k ∷ l) (sym (keep_new-remove c.key_set k (first_occurrences ks)))))))
]

abbrev pub empty : Collected
empty = record { all_keys = []; key_set = λ k. false }

pub all_keys-add_keys-empty : (ks : List Text) → (add_keys empty ks).all_keys ≡ first_occurrences ks
all_keys-add_keys-empty ks =
    all_keys-add_keys empty ks ∙ (unfold keep_new in keep_all (first_occurrences ks))

All-keep {ℓ} : (P : Text → Type ℓ) (p : Text → Bool) (ks : List Text) → All P ks → All P (keep p ks)
All-keep P p [] h = tt
All-keep P p (k ∷ ks) h = ground (arith, All-keep P p ks h.1)

IsDistinct-keep : (p : Text → Bool) (ks : List Text) → IsDistinct ks → IsDistinct (keep p ks)
IsDistinct-keep p [] h = tt
IsDistinct-keep p (k ∷ ks) h = elim (Bool-cases (p k)) [
  | inl y ↦ rw y (All-keep (λ y. k ≢ y) p ks h.0, IsDistinct-keep p ks h.1)
  | inr n ↦ rw n (IsDistinct-keep p ks h.1)
]

remove-fresh : (k : Text) (ks : List Text) → All (λ j. k ≢ j) (remove k ks)
remove-fresh k [] = tt
remove-fresh k (j ∷ ks) = ground (arith, remove-fresh k ks, text_eq_iff j k)

pub first_occurrences-IsDistinct : (ks : List Text) → IsDistinct (first_occurrences ks)
unfolding first_occurrences
first_occurrences-IsDistinct [] = tt
first_occurrences-IsDistinct (k ∷ ks) = (
  remove-fresh k (first_occurrences ks),
  IsDistinct-keep (λ j. not (text_eq j k)) (first_occurrences ks) (first_occurrences-IsDistinct ks),
)

Memᴰ-of_keep : (p : Text → Bool) {k : Text} (ks : List Text) → Memᴰ k (keep p ks) → Memᴰ k ks
Memᴰ-of_keep p [] m = m
Memᴰ-of_keep p (j ∷ ks) m = elim (Bool-cases (p j)) [
  | inl y ↦ elim (Memᴰ.cases_cons (rw y at m)) [
    | inl e ↦ Memᴰ.head e
    | inr later ↦ Memᴰ.tail (Memᴰ-of_keep p ks later)
  ]
  | inr n ↦ Memᴰ.tail (Memᴰ-of_keep p ks (rw n at m))
]

Memᴰ-keep :
    (p : Text → Bool) {k : Text} (ks : List Text) → p k ≡ true → Memᴰ k ks → Memᴰ k (keep p ks)
Memᴰ-keep p [] h m = m
Memᴰ-keep p (j ∷ ks) h (Memᴰ.head e) = rw (ap p (sym e) ∙ h) (Memᴰ.head e)
Memᴰ-keep p (j ∷ ks) h (Memᴰ.tail m) = elim (Bool-cases (p j)) [
  | inl y ↦ rw y (Memᴰ.tail (Memᴰ-keep p ks h m))
  | inr n ↦ rw n (Memᴰ-keep p ks h m)
]

pub Memᴰ-of_first_occurrences :
    {k : Text} (ks : List Text) → Memᴰ k (first_occurrences ks) → Memᴰ k ks
unfolding first_occurrences
Memᴰ-of_first_occurrences [] m = m
Memᴰ-of_first_occurrences (j ∷ ks) (Memᴰ.head e) = Memᴰ.head e
Memᴰ-of_first_occurrences (j ∷ ks) (Memᴰ.tail m) =
    Memᴰ.tail (Memᴰ-of_first_occurrences ks (Memᴰ-of_keep _ (first_occurrences ks) m))

pub Memᴰ-first_occurrences : {k : Text} (ks : List Text) → Memᴰ k ks → Memᴰ k (first_occurrences ks)
unfolding first_occurrences
Memᴰ-first_occurrences [] m = m
Memᴰ-first_occurrences (j ∷ ks) (Memᴰ.head e) = Memᴰ.head e
Memᴰ-first_occurrences {k} (j ∷ ks) (Memᴰ.tail m) = elim (Bool-cases (text_eq k j)) [
  | inl same ↦ Memᴰ.head ((text_eq_iff k j).0 same)
  | inr other ↦ Memᴰ.tail (
      Memᴰ-keep (λ i. not (text_eq i j)) (first_occurrences ks) (rw other)
        (Memᴰ-first_occurrences ks m))
]

remove_absent : (k : Text) (ks : List Text) → All (λ j. k ≢ j) ks → remove k ks ≡ ks
remove_absent k [] h = refl
remove_absent k (j ∷ ks) h = ground (arith, remove_absent k ks h.1, text_eq_iff j k)

pub first_occurrences_of_IsDistinct : (ks : List Text) → IsDistinct ks → first_occurrences ks ≡ ks
unfolding first_occurrences
first_occurrences_of_IsDistinct [] h = refl
first_occurrences_of_IsDistinct (k ∷ ks) h =
    ap (λ l. k ∷ l)
      (ap (remove k) (first_occurrences_of_IsDistinct ks h.1) ∙ remove_absent k ks h.0)

pub All-first_occurrences {κ} :
    (P : Text → Type κ) (ks : List Text) → All P ks → All P (first_occurrences ks)
unfolding first_occurrences
All-first_occurrences P [] h = tt
All-first_occurrences P (k ∷ ks) h =
    (h.0, All-keep P (λ j. not (text_eq j k)) _ (All-first_occurrences P ks h.1))
