-- ===== src/Webhook/References/Duplicates.antt =====
-- The check for repeated references, and the references of an object as a whole.
use vault_unsealer.Prelude.{
  ℕ, suc, ◌≡◌, refl, ap, ◌↔◌, inl, inr, ◌≢◌, List, [], ◌∷◌, ◌++◌, Option, none, some, All,
  IsDistinct, arith, Bool-cases,
}
use vault_unsealer.Text.{Text, text_eq, text_eq_iff}
use vault_unsealer.Api.{SecretRef}
use vault_unsealer.Webhook.Fields.{FieldPath, at_index}
use vault_unsealer.Webhook.Names.Laws.{IsKubernetesName, IsNameByte}
use vault_unsealer.Webhook.References.{
  reference_key, previous_index, duplicate_error, check_duplicates, refs_path,
  validate_unseal_keys_secret_refs,
}
use vault_unsealer.Webhook.References.Laws.{
  IsNamespace, IsReference, append_nil_iff, validate_each_iff,
}

-- Two texts in front of a slash that neither holds are told apart by it.
NoSlash : Text → Type 0
NoSlash s = All (λ c. c ≢ b'/') s

slash_split :
    (a b s t : Text) → NoSlash a → NoSlash b → (a ++ b'/' ∷ s) ≡ (b ++ b'/' ∷ t) → (a ≡ b) × (s ≡ t)
unfolding NoSlash
slash_split [] [] s t h k e = (refl, cc)
slash_split [] (c ∷ b) s t h k e = absurd (k.0 cc)
slash_split (c ∷ a) [] s t h k e = absurd (h.0 cc)
slash_split (c ∷ a) (d ∷ b) s t h k e =
    let (same, rest) = slash_split a b s t h.1 k.1 cc in (cc, rest)

name_bytes-NoSlash : (s : Text) → All IsNameByte s → NoSlash s
unfolding NoSlash
name_bytes-NoSlash [] h = tt
name_bytes-NoSlash (c ∷ s) h = (ground arith, name_bytes-NoSlash s h.1)

NoSlash-of_name : (name : Text) → IsKubernetesName name → NoSlash name
NoSlash-of_name [] h = absurd h
NoSlash-of_name (a ∷ s) h = let (short, first, last, bytes) = h in name_bytes-NoSlash (a ∷ s) bytes

NoSlash-of_namespace : (ns : Text) → IsNamespace ns → NoSlash ns
NoSlash-of_namespace [] h = unfold NoSlash in tt
NoSlash-of_namespace (a ∷ s) h = NoSlash-of_name (a ∷ s) h.1

-- References that may be accepted are printed alike only if they are the same.
pub reference_key-injective :
    (r s : SecretRef) → IsReference r → IsReference s → reference_key r ≡ reference_key s → r ≡ s
unfolding reference_key
reference_key-injective r s h k e =
    let (space, named, _) = h in
    let (space', named', _) = k in
    let (same, rest) =
      slash_split r.namespace s.namespace _ _ (NoSlash-of_namespace _ space)
        (NoSlash-of_namespace _ space') e in
    let (same', rest') =
      slash_split r.name s.name _ _ (NoSlash-of_name _ named) (NoSlash-of_name _ named') rest in
    cc

abbrev AreUnseen : List (Text × ℕ) → List SecretRef → Type 0
AreUnseen seen = All (λ ref. previous_index (reference_key ref) seen ≡ none)

-- No two references are printed alike.
abbrev ArePrintedApart : List SecretRef → Type 0
ArePrintedApart [] = Unit
ArePrintedApart (ref ∷ refs) =
    All (λ other. reference_key ref ≢ reference_key other) refs × ArePrintedApart refs

unseen_one_iff :
    (key k : Text) (i : ℕ) (seen : List (Text × ℕ))
    → (previous_index key ((k, i) ∷ seen) ≡ none) ↔ ((k ≢ key) × (previous_index key seen ≡ none))
unfolding previous_index
unseen_one_iff key k i seen = elim (Bool-cases (text_eq k key)) [
  | inl y ↦ rw y (λ h. cc, λ h. absurd (h.0 ((text_eq_iff k key).0 y)))
  | inr n ↦ rw n (λ h. (λ e. let again = (text_eq_iff k key).1 e in cc, h), λ h. h.1)
]

unseen_iff :
    (k : Text) (i : ℕ) (seen : List (Text × ℕ)) (refs : List SecretRef)
    → AreUnseen ((k, i) ∷ seen) refs
      ↔ (All (λ ref. k ≢ reference_key ref) refs × AreUnseen seen refs)
unseen_iff k i seen [] = (λ h. (tt, tt), λ h. tt)
unseen_iff k i seen (ref ∷ refs) =
    let one = unseen_one_iff (reference_key ref) k i seen in
    let more = unseen_iff k i seen refs in
    (
      λ h. (((one.0 h.0).0, (more.0 h.1).0), ((one.0 h.0).1, (more.0 h.1).1)),
      λ h. (one.1 (h.0.0, h.1.0), more.1 (h.0.1, h.1.1)),
    )

duplicate_error_iff : (path : FieldPath) (o : Option ℕ) → (duplicate_error path o ≡ []) ↔ (o ≡ none)
unfolding duplicate_error
duplicate_error_iff path none = (λ e. refl, λ e. refl)
duplicate_error_iff path (some i) = (λ e. cc, λ e. cc)

check_duplicates_iff :
    (path : FieldPath) (i : ℕ) (seen : List (Text × ℕ)) (refs : List SecretRef)
    → (check_duplicates path i seen refs ≡ []) ↔ (AreUnseen seen refs × ArePrintedApart refs)
unfolding check_duplicates
check_duplicates_iff path i seen [] = (λ e. (tt, tt), λ h. refl)
check_duplicates_iff path i seen (ref ∷ refs) =
    let both =
      append_nil_iff _ _ (duplicate_error_iff (at_index path i) _)
        (check_duplicates_iff path (suc i) ((reference_key ref, i) ∷ seen) refs) in
    let more = unseen_iff (reference_key ref) i seen refs in
    (
      λ e.
          let (now, (later, apart)) = both.0 e in
          ((now, (more.0 later).1), ((more.0 later).0, apart)),
      λ h. let ((now, later), (fresh, apart)) = h in both.1 (now, (more.1 (fresh, later), apart)),
    )

apart_one_iff :
    (ref : SecretRef) (refs : List SecretRef)
    → IsReference ref
    → All IsReference refs
    → All (λ other. reference_key ref ≢ reference_key other) refs ↔ All (λ other. ref ≢ other) refs
apart_one_iff ref [] h k = (λ a. tt, λ a. tt)
apart_one_iff ref (other ∷ refs) h k =
    let more = apart_one_iff ref refs h k.1 in
    (
      λ a. (λ e. a.0 (ap reference_key e), more.0 a.1),
      λ a. (λ e. a.0 (reference_key-injective ref other h k.0 e), more.1 a.1),
    )

apart_iff : (refs : List SecretRef) → All IsReference refs → ArePrintedApart refs ↔ IsDistinct refs
apart_iff [] h = (λ a. tt, λ a. tt)
apart_iff (ref ∷ refs) h =
    let one = apart_one_iff ref refs h.0 h.1 in
    let more = apart_iff refs h.1 in (λ a. (one.0 a.0, more.0 a.1), λ a. (one.1 a.0, more.1 a.1))

all_unseen : (refs : List SecretRef) → AreUnseen [] refs
all_unseen [] = tt
all_unseen (ref ∷ refs) = (unfold previous_index in refl, all_unseen refs)

-- The secret references of an object raise no error exactly when there is at least one, each is one
-- that may be accepted, and no two are the same.
pub validate_unseal_keys_secret_refs_iff :
    (refs : List SecretRef)
    → (validate_unseal_keys_secret_refs refs ≡ [])
      ↔ ((refs ≢ []) × All IsReference refs × IsDistinct refs)
unfolding validate_unseal_keys_secret_refs
validate_unseal_keys_secret_refs_iff [] = (λ e. cc, λ h. absurd (h.0 refl))
validate_unseal_keys_secret_refs_iff (ref ∷ refs) =
    let both =
      append_nil_iff _ _ (validate_each_iff refs_path 0 (ref ∷ refs))
        (check_duplicates_iff refs_path 0 [] (ref ∷ refs)) in
    (
      λ e.
          let (valid, (_, apart)) = both.0 e in
          (λ n. cc, valid, (apart_iff (ref ∷ refs) valid).0 apart),
      λ h.
          let (_, valid, distinct) = h in
          both.1 (valid, (all_unseen (ref ∷ refs), (apart_iff (ref ∷ refs) valid).1 distinct)),
    )
