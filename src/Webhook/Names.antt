-- ===== src/Webhook/Names.antt =====
-- isAlphanumeric, isValidKubernetesName and isValidLabelSelector of
-- internal/webhook/vaultunsealer_webhook.go.
pub mod Laws
use vault_unsealer.Prelude.{
  ℕ, Bool, true, false, not, ◌&&◌, ◌||◌, [], ◌∷◌, if◌then◌else◌, leb, ltb, ◌==◌, all, length,
}
use vault_unsealer.Text.{Text, codes}
use vault_unsealer.Text.Runes.{runes}

unfoldable pub is_alphanumeric : ℕ → Bool
is_alphanumeric c = leb b'a' c && leb c b'z' || leb b'A' c && leb c b'Z' || leb b'0' c && leb c b'9'

-- `name[len(name)-1]`, for the name that starts with `a`
abbrev pub last_byte : ℕ → Text → ℕ
last_byte a [] = a
last_byte a (b ∷ s) = last_byte b s

unfoldable pub is_name_rune : ℕ → Bool
is_name_rune c = is_alphanumeric c || c == b'-' || c == b'.'

unfoldable pub is_valid_kubernetes_name : Text → Bool
unfolding is_name_rune
is_valid_kubernetes_name [] = false
is_valid_kubernetes_name (a ∷ s) =
    if ltb 253 (length (a ∷ s))
    then false
    else if not (is_alphanumeric a) || not (is_alphanumeric (last_byte a s))
    then false
    else all is_name_rune (runes (a ∷ s))

abbrev pub valid_chars : Text
valid_chars = codes "abcdefghijklmnopqrstuvwxyzABCDEFGHIJKLMNOPQRSTUVWXYZ0123456789-_.=/,"

-- strings.ContainsRune for a string of ASCII characters, whose runes are its bytes
unfoldable pub contains_rune : Text → ℕ → Bool
contains_rune [] r = false
contains_rune (c ∷ s) r = c == r || contains_rune s r

unfoldable pub is_valid_label_selector : Text → Bool
unfolding contains_rune
is_valid_label_selector [] = false
is_valid_label_selector (a ∷ s) = all (contains_rune valid_chars) (runes (a ∷ s))
