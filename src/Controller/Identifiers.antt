-- ===== src/Controller/Identifiers.antt =====
-- generateReconcileID of internal/controller/vaultunsealer_controller.go, and the loggers of the
-- controller. `random` is rand.Read: the bytes that it puts into a slice of a length, or an error.
use vault_unsealer.Prelude.{
  ℕ, pos, ◌+◌, ◌-◌, ◌*◌, ◌/◌, ◌%◌, ◌<◌, ◌≡◌, refl, sym, ap, ap₂, subst, ◌∙◌, true, ◌&&◌, ◌||◌, List,
  [], ◌∷◌, ltb, leb, length, All, if◌then◌else◌, Bool-cases, inl, inr, arith,
}
use vault_unsealer.Text.{Text}
use vault_unsealer.Result.{Error, Result, ok, err, ◌>>=◌, Result-cases}
use vault_unsealer.Api.{VaultUnsealer}
use vault_unsealer.Cluster.{Pod}
use vault_unsealer.Logging.{
  Fields, with_vault_unsealer, with_reconciliation, with_pod, with_unseal_attempt,
}

-- hex.EncodeToString
abbrev hex_digit : ℕ → ℕ
hex_digit d = if ltb d 10 then b'0' + d else b'a' + (d - 10)

abbrev hex : List ℕ → Text
hex [] = []
hex (b ∷ bytes) = hex_digit (b / 16) ∷ hex_digit (b % 16) ∷ hex bytes

abbrev pub generate_reconcile_id : (ℕ → Result (List ℕ)) → Result Text
generate_reconcile_id random = random 4 >>= λ bytes. ok (hex bytes)

-- reconcileID, whose error is dropped
abbrev pub reconcile_id : (ℕ → Result (List ℕ)) → Text
reconcile_id random = by_result (generate_reconcile_id random)
  where
    by_result : Result Text → Text
    by_result (ok id) = id
    by_result (err e) = []

module _ {Logger : Type 0} (with_values : Logger → Fields → Logger) where
  -- `log` of reconcileVaultUnsealer
  abbrev pub pass_log : Logger → VaultUnsealer → (ℕ → Result (List ℕ)) → Logger
  pass_log context vu random =
      with_reconciliation with_values (with_vault_unsealer with_values context vu)
        (reconcile_id random)

  -- `keyLog` of checkAndUnsealPod, for the key at index `i` of `n`
  abbrev pub key_log : Logger → Pod → (i n : ℕ) → Logger
  key_log context pod i n =
      with_unseal_attempt with_values (with_pod with_values context pod) pod.name (pos (i + 1))
        (pos n)

-- A digit or a letter from a to f.
abbrev pub IsHexDigit : ℕ → Type 0
IsHexDigit c = (leb b'0' c && leb c b'9' || leb b'a' c && leb c b'f') ≡ true

-- Bytes, as many as were asked for, if there is no error.
pub record IsRandom (random : ℕ → Result (List ℕ)) : Type 0 where
  pub filled : (n : ℕ) (bytes : List ℕ) → random n ≡ ok bytes → length bytes ≡ n
  pub are_bytes : (n : ℕ) (bytes : List ℕ) → random n ≡ ok bytes → All (λ b. b < 256) bytes

digit_value : ℕ → ℕ
digit_value c = if ltb c b'a' then c - b'0' else c - b'a' + 10

digit_value-hex_digit : (d : ℕ) → d < 16 → digit_value (hex_digit d) ≡ d
unfolding digit_value
digit_value-hex_digit d h = elim (Bool-cases (ltb d 10)) [
  | inl small ↦ rw small (ground arith)
  | inr large ↦ rw large (ground arith)
]

IsHexDigit-hex_digit : (d : ℕ) → d < 16 → IsHexDigit (hex_digit d)
IsHexDigit-hex_digit d h = elim (Bool-cases (ltb d 10)) [
  | inl small ↦ rw small (ground arith)
  | inr large ↦ rw large (ground arith)
]

-- the bytes that a text of digits denotes, two digits each
pub unhex : Text → List ℕ
unhex (high ∷ low ∷ s) = let rest = unhex s in (digit_value high * 16 + digit_value low) ∷ rest
unhex s = []

unhex-hex : (bytes : List ℕ) → All (λ b. b < 256) bytes → unhex (hex bytes) ≡ bytes
unfolding unhex
unhex-hex [] h = refl
unhex-hex (b ∷ bytes) (small, h) =
    ap₂ (λ (c : ℕ) (l : List ℕ). c ∷ l)
      (ap₂ (λ i j. i * 16 + j) (digit_value-hex_digit (b / 16) (omega arith))
          (digit_value-hex_digit (b % 16) (omega arith))
        ∙ omega arith)
      (unhex-hex bytes h)

hex-AreHexDigits : (bytes : List ℕ) → All (λ b. b < 256) bytes → All IsHexDigit (hex bytes)
hex-AreHexDigits [] h = tt
hex-AreHexDigits (b ∷ bytes) (small, h) = (
  IsHexDigit-hex_digit (b / 16) (omega arith),
  (IsHexDigit-hex_digit (b % 16) (omega arith), hex-AreHexDigits bytes h),
)

length-hex : (bytes : List ℕ) → length (hex bytes) ≡ 2 * length bytes
length-hex [] = refl
length-hex (b ∷ bytes) = omega (arith, length-hex bytes)

-- If the random source fills the slice with bytes or fails, an ID that is generated without an error
-- has eight digits 0 to 9 or a to f, and read two by two they are the four bytes that the source gave:
-- different bytes make different IDs.
pub generate_reconcile_id-hex :
    (random : ℕ → Result (List ℕ)) (id : Text)
    → IsRandom random
    → generate_reconcile_id random ≡ ok id
    → (length id ≡ 8) × All IsHexDigit id × (random 4 ≡ ok (unhex id))
generate_reconcile_id-hex random id laws made = elim (Result-cases (random 4)) [
  | inl (bytes, given) ↦
      let same : hex bytes ≡ id = of_ok (sym (ap (λ r. r >>= λ b. ok (hex b)) given) ∙ made) in
      let small = laws.are_bytes 4 bytes given in
      (
        ap length (sym same) ∙ length-hex bytes ∙ ap (λ n. 2 * n) (laws.filled 4 bytes given),
        subst (All IsHexDigit) same (hex-AreHexDigits bytes small),
        given ∙ ap ok (sym (unhex-hex bytes small) ∙ ap unhex same),
      )
  | inr (e, failed) ↦ absurd (no_error (sym (ap (λ r. r >>= λ b. ok (hex b)) failed) ∙ made))
]
  where
    of_ok : {a b : Text} → ok a ≡ ok b → a ≡ b
    of_ok h = cc

    no_error : {e : Error} {a : Text} → err e ≡ ok a → ⊥
    no_error h = cc
