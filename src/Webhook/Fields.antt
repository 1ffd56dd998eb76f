-- ===== src/Webhook/Fields.antt =====
-- Package field of apimachinery: the path to a value inside an object, and the kinds of error that
-- the validator builds, each with the arguments that it is built from.
use vault_unsealer.Prelude.{ℕ, ℤ, List, [], ◌∷◌, ◌++◌}
use vault_unsealer.Text.{Text}

pub data Segment : Type 0 where
  child : Text → Segment
  index : ℕ → Segment

-- from the root
abbrev pub FieldPath : Type 0
FieldPath = List Segment

abbrev pub at_child : FieldPath → Text → FieldPath
at_child path name = path ++ child name ∷ []

abbrev pub at_index : FieldPath → ℕ → FieldPath
at_index path i = path ++ index i ∷ []

-- the offending value; a duration stands for its text
pub data Value : Type 0 where
  text : Text → Value
  int : ℤ → Value
  duration : ℤ → Value

pub data FieldError : Type 0 where
  required : FieldPath → (detail : Text) → FieldError
  invalid : FieldPath → Value → (detail : Text) → FieldError
  too_long : FieldPath → Text → (max : ℕ) → FieldError
  duplicate : FieldPath → (value : Text) → FieldError
