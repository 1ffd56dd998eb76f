-- ===== src/Tests/Admission.antt =====
-- The webhook on the object of the small cluster.
use vault_unsealer.Prelude.{
  ◌*◌, ◌<◌, ◌≤◌, ◌≡◌, ◌≢◌, ◌↔◌, refl, true, [], ◌∷◌, none, All, IsDistinct, pos_part, length,
}
use vault_unsealer.Text.{Text, codes, text_eq}
use vault_unsealer.Text.Runes.{runes}
use vault_unsealer.Result.{Result, ok}
use vault_unsealer.Controller.Reconcile.{reconcile_vault_unsealer}
use vault_unsealer.Controller.Reconcile.Admitted.{requeue_admitted}
use vault_unsealer.Webhook.Names.{
  is_alphanumeric, is_valid_kubernetes_name, is_valid_label_selector,
}
use vault_unsealer.Webhook.Names.Laws.{
  IsKubernetesName, IsSelectorByte, is_valid_kubernetes_name_iff, is_valid_label_selector_iff,
}
use vault_unsealer.Webhook.References.{validate_unseal_keys_secret_refs}
use vault_unsealer.Webhook.References.Laws.{IsReference}
use vault_unsealer.Webhook.References.Duplicates.{validate_unseal_keys_secret_refs_iff}
use vault_unsealer.Webhook.Spec.{
  ParsedUrl, validate_vault_unsealer, validate_create, validate_update, validate_delete,
}
use vault_unsealer.Webhook.Spec.Laws.{IsUsable, admission_iff}
use vault_unsealer.Webhook.Spec.Warnings.{warnings_iff}
use vault_unsealer.Tests.World.{world, unsealer, dying_unsealer, key_ref}

-- url.Parse, at the one address
abbrev parse : Text → Result ParsedUrl
parse url = ok (record { scheme = codes "http"; host = codes "vault.vault.svc:8200" })

admitted : (validate_create parse unsealer).refusal ≡ none
unfolding validate_create validate_vault_unsealer text_eq is_valid_kubernetes_name is_alphanumeric
    runes is_valid_label_selector
admitted = refl

is_valid_kubernetes_name_iff_example :
    (is_valid_kubernetes_name (codes "unseal-keys") ≡ true) ↔ IsKubernetesName (codes "unseal-keys")
is_valid_kubernetes_name_iff_example = is_valid_kubernetes_name_iff (codes "unseal-keys")

is_valid_label_selector_iff_example :
    (is_valid_label_selector (codes "app=vault") ≡ true)
    ↔ ((codes "app=vault" ≢ []) × All IsSelectorByte (codes "app=vault"))
is_valid_label_selector_iff_example = is_valid_label_selector_iff (codes "app=vault")

validate_unseal_keys_secret_refs_iff_example :
    (validate_unseal_keys_secret_refs (key_ref ∷ []) ≡ [])
    ↔ (((key_ref ∷ []) ≢ []) × All IsReference (key_ref ∷ []) × IsDistinct (key_ref ∷ []))
validate_unseal_keys_secret_refs_iff_example = validate_unseal_keys_secret_refs_iff (key_ref ∷ [])

admission_iff_example :
    (((validate_create parse unsealer).refusal ≡ none) ↔ IsUsable parse unsealer.spec)
    × (((validate_update parse dying_unsealer unsealer).refusal ≡ none)
        ↔ IsUsable parse unsealer.spec)
    × ((validate_delete dying_unsealer).refusal ≡ none)
admission_iff_example = admission_iff parse dying_unsealer unsealer

warnings_iff_example :
    ((validate_create parse unsealer).warnings ≡ [])
    ↔ (((0 < 2) × (2 ≤ length (key_ref ∷ []) * 10)) × (true ≡ true))
warnings_iff_example = warnings_iff parse unsealer admitted

requeue_admitted_example :
    0 < pos_part (reconcile_vault_unsealer (world unsealer) unsealer []).0.requeue_after
requeue_admitted_example = requeue_admitted parse (world unsealer) unsealer [] admitted
