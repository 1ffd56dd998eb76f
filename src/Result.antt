-- ===== src/Result.antt =====
-- Go's `(value, error)` results. An error is its message, and whether apierrors.IsNotFound
-- recognises it; fmt.Errorf with %w keeps the wrapped error recognisable.
use vault_unsealer.Prelude.{◌≡◌, refl, ◌⊎◌, inl, inr, Bool, false, ◌++◌}
use vault_unsealer.Text.{Text}

pub record Error : Type 0 where
  pub message : Text
  pub not_found : Bool

pub data Result {ℓ} (A : Type ℓ) : Type ℓ where
  ok : A → Result A
  err : Error → Result A

infixl 5 ◌>>=◌
abbrev pub ◌>>=◌ {ℓ κ} : {A : Type ℓ} {B : Type κ} → Result A → (A → Result B) → Result B
ok a >>= f = f a
err e >>= f = err e

-- fmt.Errorf(text) with no wrapped error
abbrev pub new_error : Text → Error
new_error text = record { message = text; not_found = false }

-- fmt.Errorf(text + "%w", e)
abbrev pub wrap : Text → Error → Error
wrap text e = record e { message = text ++ e.message }

abbrev pub wrap_result {ℓ} : {A : Type ℓ} → Text → Result A → Result A
wrap_result text (ok a) = ok a
wrap_result text (err e) = err (wrap text e)

pub Result-cases {ℓ} :
    {A : Type ℓ} (r : Result A) → ((a : A) × (r ≡ ok a)) ⊎ ((e : Error) × (r ≡ err e))
Result-cases (ok a) = inl (a, refl)
Result-cases (err e) = inr (e, refl)
