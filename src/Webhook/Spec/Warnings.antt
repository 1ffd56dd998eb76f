-- ===== src/Webhook/Spec/Warnings.antt =====
-- With which warnings an object is admitted.
use vault_unsealer.Prelude.{
  ℕ, ◌*◌, ◌≡◌, refl, ℤ, pos, negsuc, ltb_ℤ, ◌↔◌, ◌≢◌, Bool, true, false, List, [], ◌∷◌, none,
  length, arith, ◌<◌, pos_part, zero, suc, ◌≤◌,
}
use vault_unsealer.Text.{Text}
use vault_unsealer.Result.{Result}
use vault_unsealer.Api.{SecretRef, VaultUnsealer}
use vault_unsealer.Webhook.References.Laws.{append_nil_iff}
use vault_unsealer.Webhook.Spec.{
  ParsedUrl, warning_if, is_zero, validate_key_threshold, validate_threshold_of, validate_mode,
  validate_spec, validate_vault_unsealer, validate_create,
}
use vault_unsealer.Webhook.Spec.Laws.{IsThreshold, not_iff, to_aggregate_iff, no_errors_iff}

warning_if_nil_iff :
    {P : Type 0} (b : Bool) (w : Text) → ((b ≡ false) ↔ P) → (warning_if b w ≡ []) ↔ P
warning_if_nil_iff true w h = (λ k. cc, λ p. let k = h.1 p in cc)
warning_if_nil_iff false w h = (λ k. h.0 refl, λ p. refl)

positive_iff : (k : ℤ) → IsThreshold k → (is_zero k ≡ false) ↔ (0 < pos_part k)
positive_iff (pos zero) h = (λ e. cc, λ p. absurd (omega arith))
positive_iff (pos (suc k)) h = (λ e. omega arith, λ p. refl)
positive_iff (negsuc k) h = absurd h

not_high_iff : (n : ℕ) (k : ℤ) → IsThreshold k → (ltb_ℤ (pos n) k ≡ false) ↔ (pos_part k ≤ n)
not_high_iff n (pos k) h = ground arith
not_high_iff n (negsuc k) h = absurd h

threshold_warnings_iff :
    (k : ℤ) (refs : List SecretRef)
    → refs ≢ []
    → IsThreshold k
    → ((validate_threshold_of k refs).1 ≡ []) ↔ ((0 < pos_part k) × (pos_part k ≤ length refs * 10))
unfolding validate_threshold_of validate_key_threshold
threshold_warnings_iff k [] n h = absurd (n refl)
threshold_warnings_iff k (ref ∷ refs) n h =
    append_nil_iff _ _ (warning_if_nil_iff _ _ (positive_iff k h))
      (warning_if_nil_iff _ _ (not_high_iff (length (ref ∷ refs) * 10) k h))

-- An admitted object comes without a warning exactly when its threshold is positive and at most ten
-- times the number of its secret references, and HA mode is on.
pub warnings_iff :
    (parse : Text → Result ParsedUrl) (vu : VaultUnsealer)
    → (validate_create parse vu).refusal ≡ none
    → ((validate_create parse vu).warnings ≡ []) ↔ (
        ((0 < pos_part vu.spec.key_threshold)
          × (pos_part vu.spec.key_threshold ≤ length vu.spec.unseal_keys_secret_refs * 10))
        × (vu.spec.mode.ha ≡ true))
unfolding validate_create validate_vault_unsealer validate_spec validate_mode
warnings_iff parse vu admitted =
    let usable =
      (no_errors_iff parse vu.spec).0
        ((to_aggregate_iff (validate_spec parse vu.spec).0).0 admitted) in
    append_nil_iff _ _
      (threshold_warnings_iff vu.spec.key_threshold vu.spec.unseal_keys_secret_refs usable.some_refs
        usable.threshold)
      (warning_if_nil_iff _ _ (not_iff vu.spec.mode.ha))
