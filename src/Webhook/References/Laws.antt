-- ===== src/Webhook/References/Laws.antt =====
-- When one secret reference is accepted.
use vault_unsealer.Prelude.{
  ℕ, suc, ◌≤◌, ◌≡◌, refl, ◌↔◌, ◌≢◌, Bool, true, false, not, List, [], ◌∷◌, ◌++◌, ltb, length, All,
  arith,
}
use vault_unsealer.Text.{Text, is_empty}
use vault_unsealer.Api.{SecretRef}
use vault_unsealer.Webhook.Fields.{FieldPath, FieldError, at_index}
use vault_unsealer.Webhook.Names.{is_valid_kubernetes_name}
use vault_unsealer.Webhook.Names.Laws.{IsKubernetesName, is_valid_kubernetes_name_iff}
use vault_unsealer.Webhook.References.{
  error_if, validate_namespace, validate_secret_ref, validate_each,
}

abbrev pub IsNamespace : Text → Type 0
IsNamespace [] = Unit
IsNamespace (a ∷ s) = (length (a ∷ s) ≤ 63) × IsKubernetesName (a ∷ s)

-- The namespace is empty or a name of at most 63 bytes, the name is one, and there is a key.
abbrev pub IsReference : SecretRef → Type 0
IsReference ref = IsNamespace ref.namespace × IsKubernetesName ref.name × (ref.key ≢ [])

pub append_nil_iff :
    {A P Q : Type 0} (xs ys : List A)
    → ((xs ≡ []) ↔ P)
    → ((ys ≡ []) ↔ Q)
    → ((xs ++ ys) ≡ []) ↔ (P × Q)
append_nil_iff [] ys h k = (λ e. (h.0 refl, k.0 e), λ pq. k.1 pq.1)
append_nil_iff (x ∷ xs) ys h k = (λ e. cc, λ pq. absurd (cons_not_nil x xs (h.1 pq.0)))
  where
    cons_not_nil : {A : Type 0} (x : A) (xs : List A) → (x ∷ xs) ≢ []
    cons_not_nil x xs e = cc

pub error_if_nil_iff :
    {P : Type 0} (b : Bool) (e : FieldError) → ((b ≡ false) ↔ P) → (error_if b e ≡ []) ↔ P
unfolding error_if
error_if_nil_iff true e h = (λ k. cc, λ p. absurd (true_not_false (h.1 p)))
  where
    true_not_false : true ≢ false
    true_not_false k = cc
error_if_nil_iff false e h = (λ k. h.0 refl, λ p. refl)

refused_iff : (name : Text) → (not (is_valid_kubernetes_name name) ≡ false) ↔ IsKubernetesName name
refused_iff name = ground (arith, is_valid_kubernetes_name_iff name)

ltb-false_iff : (a b : ℕ) → (ltb a b ≡ false) ↔ (b ≤ a)
ltb-false_iff a b = ground arith

pub is_empty-false_iff : (s : Text) → (is_empty s ≡ false) ↔ (s ≢ [])
is_empty-false_iff [] = (λ h. cc, λ h. absurd (h refl))
is_empty-false_iff (a ∷ s) = (λ h. λ e. cc, λ h. refl)

validate_namespace_iff :
    (ns : Text) (path : FieldPath) → (validate_namespace ns path ≡ []) ↔ IsNamespace ns
unfolding validate_namespace
validate_namespace_iff [] path = (λ h. tt, λ h. refl)
validate_namespace_iff (a ∷ s) path =
    append_nil_iff _ _ (error_if_nil_iff _ _ (ltb-false_iff 63 (length (a ∷ s))))
      (error_if_nil_iff _ _ (refused_iff (a ∷ s)))

IsKubernetesName-le : (name : Text) → IsKubernetesName name → (name ≢ []) × (length name ≤ 253)
IsKubernetesName-le [] h = absurd h
IsKubernetesName-le (a ∷ s) h = (λ e. cc, h.0)

-- A secret reference raises no error exactly when its namespace is empty or a name of at most 63
-- bytes, its name is a name, and its key is not empty.
pub validate_secret_ref_iff :
    (ref : SecretRef) (path : FieldPath) → (validate_secret_ref ref path ≡ []) ↔ IsReference ref
unfolding validate_secret_ref
validate_secret_ref_iff ref path =
    let parts = append_nil_iff _ _ (error_if_nil_iff _ _ (is_empty-false_iff ref.name)) (
      append_nil_iff _ _ (error_if_nil_iff _ _ (is_empty-false_iff ref.key)) (
        append_nil_iff _ _ (validate_namespace_iff ref.namespace path) (
          append_nil_iff _ _ (error_if_nil_iff _ _ (ltb-false_iff 253 (length ref.name)))
            (error_if_nil_iff _ _ (refused_iff ref.name))))) in
    (
      λ e. let (_, (key, (space, (_, valid)))) = parts.0 e in (space, valid, key),
      λ h.
          let (space, valid, key) = h in
          let (named, short) = IsKubernetesName-le ref.name valid in
          parts.1 (named, (key, (space, (short, valid)))),
    )

pub validate_each_iff :
    (path : FieldPath) (i : ℕ) (refs : List SecretRef)
    → (validate_each path i refs ≡ []) ↔ All IsReference refs
unfolding validate_each
validate_each_iff path i [] = (λ e. tt, λ h. refl)
validate_each_iff path i (ref ∷ refs) =
    append_nil_iff _ _ (validate_secret_ref_iff ref (at_index path i))
      (validate_each_iff path (suc i) refs)
