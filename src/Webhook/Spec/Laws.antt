-- ===== src/Webhook/Spec/Laws.antt =====
-- Which objects are admitted.
use vault_unsealer.Prelude.{
  ◌≡◌, refl, ℤ, pos, negsuc, ltb_ℤ, ◌↔◌, ◌≢◌, ◌⊎◌, Bool, true, false, not, ◌&&◌, List, [], ◌∷◌,
  Option, none, some, All, IsDistinct, arith, ◌<◌, pos_part,
}
use vault_unsealer.Text.{Text, codes, text_eq, text_eq_iff}
use vault_unsealer.Result.{Result, ok, err}
use vault_unsealer.Api.{SecretRef, VaultUnsealerSpec, VaultUnsealer}
use vault_unsealer.Webhook.Names.Laws.{IsSelectorByte, is_valid_label_selector_iff}
use vault_unsealer.Webhook.Names.{is_valid_label_selector}
use vault_unsealer.Webhook.Fields.{FieldError}
use vault_unsealer.Webhook.References.Laws.{
  IsReference, append_nil_iff, error_if_nil_iff, is_empty-false_iff, validate_secret_ref_iff,
}
use vault_unsealer.Webhook.References.Duplicates.{validate_unseal_keys_secret_refs_iff}
use vault_unsealer.Webhook.Spec.{
  ParsedUrl, ca_bundle_path, validate_parsed_url, validate_url, validate_ca_bundle,
  validate_vault_connection, validate_vault_label_selector, validate_key_threshold,
  validate_threshold_of, validate_interval, validate_interval_of, validate_mode, to_aggregate,
  validate_spec, validate_vault_unsealer, validate_create, validate_update, validate_delete,
}

abbrev pub IsWebUrl : Result ParsedUrl → Type 0
IsWebUrl (err e) = ⊥
IsWebUrl (ok u) = ((u.scheme ≡ codes "http") ⊎ (u.scheme ≡ codes "https")) × (u.host ≢ [])

abbrev pub IsBundle : Option SecretRef → Type 0
IsBundle none = Unit
IsBundle (some ref) = IsReference ref

abbrev pub IsInterval : Option ℤ → Type 0
IsInterval none = Unit
IsInterval (some interval) = 0 < pos_part interval

-- A threshold that is not negative.
abbrev pub IsThreshold : ℤ → Type 0
IsThreshold (pos n) = Unit
IsThreshold (negsuc n) = ⊥

-- What the operator needs of a specification.
pub record IsUsable (parse : Text → Result ParsedUrl) (spec : VaultUnsealerSpec) : Type 0 where
  pub url_given : spec.vault.url ≢ []
  pub url : IsWebUrl (parse spec.vault.url)
  pub bundle : IsBundle spec.vault.ca_bundle_secret_ref
  pub some_refs : spec.unseal_keys_secret_refs ≢ []
  pub refs : All IsReference spec.unseal_keys_secret_refs
  pub distinct : IsDistinct spec.unseal_keys_secret_refs
  pub selector_given : spec.vault_label_selector ≢ []
  pub selector : All IsSelectorByte spec.vault_label_selector
  pub threshold : IsThreshold spec.key_threshold
  pub interval : IsInterval spec.interval

scheme_iff :
    (s : Text)
    → ((not (text_eq s (codes "http")) && not (text_eq s (codes "https"))) ≡ false)
      ↔ ((s ≡ codes "http") ⊎ (s ≡ codes "https"))
scheme_iff s = ground (arith, text_eq_iff s (codes "http"), text_eq_iff s (codes "https"))

cons_not_nil {ℓ} : {A : Type ℓ} (x : A) (xs : List A) → (x ∷ xs) ≢ []
cons_not_nil x xs e = cc

validate_parsed_url_iff :
    (url : Text) (r : Result ParsedUrl) → (validate_parsed_url url r ≡ []) ↔ IsWebUrl r
unfolding validate_parsed_url
validate_parsed_url_iff url (err e) = (λ h. cc, λ h. absurd h)
validate_parsed_url_iff url (ok u) =
    append_nil_iff _ _ (error_if_nil_iff _ _ (scheme_iff u.scheme))
      (error_if_nil_iff _ _ (is_empty-false_iff u.host))

validate_url_iff :
    (parse : Text → Result ParsedUrl) (url : Text)
    → (validate_url parse url ≡ []) ↔ ((url ≢ []) × IsWebUrl (parse url))
unfolding validate_url
validate_url_iff parse [] = (λ h. cc, λ h. absurd (h.0 refl))
validate_url_iff parse (a ∷ s) =
    let parsed = validate_parsed_url_iff (a ∷ s) (parse (a ∷ s)) in
    (λ h. (cons_not_nil a s, parsed.0 h), λ h. parsed.1 h.1)

validate_ca_bundle_iff : (o : Option SecretRef) → (validate_ca_bundle o ≡ []) ↔ IsBundle o
unfolding validate_ca_bundle
validate_ca_bundle_iff none = (λ h. tt, λ h. refl)
validate_ca_bundle_iff (some ref) = validate_secret_ref_iff ref ca_bundle_path

pub not_iff : (b : Bool) → (not b ≡ false) ↔ (b ≡ true)
not_iff true = (λ h. refl, λ h. refl)
not_iff false = (λ h. cc, λ h. cc)

validate_vault_label_selector_iff :
    (s : Text) → (validate_vault_label_selector s ≡ []) ↔ ((s ≢ []) × All IsSelectorByte s)
unfolding validate_vault_label_selector
validate_vault_label_selector_iff [] = (λ h. cc, λ h. absurd (h.0 refl))
validate_vault_label_selector_iff (a ∷ s) =
    let accepted = is_valid_label_selector_iff (a ∷ s) in
    let flipped = not_iff (is_valid_label_selector (a ∷ s)) in
    error_if_nil_iff _ _ (λ h. accepted.0 (flipped.0 h), λ h. flipped.1 (accepted.1 h))

IsThreshold-iff : (k : ℤ) → (ltb_ℤ k (pos 0) ≡ false) ↔ IsThreshold k
IsThreshold-iff (pos n) = (λ h. tt, λ h. ground arith)
IsThreshold-iff (negsuc n) = (λ h. ground arith, λ h. absurd h)

validate_threshold_of_iff :
    (k : ℤ) (refs : List SecretRef)
    → ((validate_threshold_of k refs).0 ≡ []) ↔ (refs ≢ [] → IsThreshold k)
unfolding validate_threshold_of validate_key_threshold
validate_threshold_of_iff k [] = (λ h. λ n. absurd (n refl), λ h. refl)
validate_threshold_of_iff k (ref ∷ refs) =
    let given = error_if_nil_iff _ _ (IsThreshold-iff k) in
    (λ h. λ n. given.0 h, λ h. given.1 (h (cons_not_nil ref refs)))

validate_interval_of_iff : (o : Option ℤ) → (validate_interval_of o ≡ []) ↔ IsInterval o
unfolding validate_interval_of validate_interval
validate_interval_of_iff none = (λ h. tt, λ h. refl)
validate_interval_of_iff (some (pos n)) = error_if_nil_iff _ _ (ground arith)
validate_interval_of_iff (some (negsuc n)) = error_if_nil_iff _ _ (ground arith)

pub to_aggregate_iff : (errors : List FieldError) → (to_aggregate errors ≡ none) ↔ (errors ≡ [])
unfolding to_aggregate
to_aggregate_iff [] = (λ h. refl, λ h. refl)
to_aggregate_iff (e ∷ errors) = (λ h. cc, λ h. cc)

nothing_iff : (◌≡◌ {A = List FieldError} [] []) ↔ Unit {0}
nothing_iff = (λ h. tt, λ h. refl)

module _ (parse : Text → Result ParsedUrl) where
  pub no_errors_iff :
      (spec : VaultUnsealerSpec) → ((validate_spec parse spec).0 ≡ []) ↔ IsUsable parse spec
  unfolding validate_spec validate_vault_connection validate_mode
  no_errors_iff spec =
      let parts =
        append_nil_iff _ _
          (append_nil_iff _ _ (validate_url_iff parse spec.vault.url)
            (validate_ca_bundle_iff spec.vault.ca_bundle_secret_ref))
          (append_nil_iff _ _ (validate_unseal_keys_secret_refs_iff spec.unseal_keys_secret_refs) (
            append_nil_iff _ _ (validate_vault_label_selector_iff spec.vault_label_selector) (
              append_nil_iff _ _
                (validate_threshold_of_iff spec.key_threshold spec.unseal_keys_secret_refs)
                (append_nil_iff _ _ (validate_interval_of_iff spec.interval) nothing_iff)))) in
      (
        λ e.
            let (
              ((given, url), bundle),
              ((some_refs, refs, distinct), ((selected, selector), (threshold, (interval, _)))),
            ) =
              parts.0 e in
            record {
              url_given = given;
              url = url;
              bundle = bundle;
              some_refs = some_refs;
              refs = refs;
              distinct = distinct;
              selector_given = selected;
              selector = selector;
              threshold = threshold some_refs;
              interval = interval;
            },
        λ u. parts.1 (
          ((u.url_given, u.url), u.bundle),
          (
            (u.some_refs, u.refs, u.distinct),
            ((u.selector_given, u.selector), (λ n. u.threshold, (u.interval, tt))),
          ),
        ),
      )

  -- An object is admitted, when it is created and whatever it replaces, exactly when its
  -- specification is usable: a URL with the scheme http or https and a host, a CA bundle reference
  -- that may be accepted if there is one, at least one secret reference, each of which may be
  -- accepted and none of which is repeated, a label selector of letters, digits and the signs
  -- - _ . = / and the comma, a threshold
  -- that is not negative, and a positive interval if there is one. It may always be deleted.
  pub admission_iff :
      (old new : VaultUnsealer)
      → (((validate_create parse new).refusal ≡ none) ↔ IsUsable parse new.spec)
        × (((validate_update parse old new).refusal ≡ none) ↔ IsUsable parse new.spec)
        × ((validate_delete old).refusal ≡ none)
  unfolding validate_create validate_update validate_delete validate_vault_unsealer
  admission_iff old new =
      let refused = to_aggregate_iff (validate_spec parse new.spec).0 in
      let usable = no_errors_iff new.spec in
      let both : ((validate_create parse new).refusal ≡ none) ↔ IsUsable parse new.spec =
        (λ h. usable.0 (refused.0 h), λ u. refused.1 (usable.1 u)) in
      (both, both, refl)
