-- ===== src/Controller/Conditions/Laws.antt =====
-- The conditions as a table by type.
use vault_unsealer.Prelude.{
  ◌≡◌, ◌≢◌, refl, List, [], ◌∷◌, Option, none, some, arith, All, IsDistinct, if◌then◌else◌,
  Bool-cases, inl, inr,
}
use vault_unsealer.Text.{Text, text_eq, text_eq_iff}
use vault_unsealer.Api.{Condition}
use vault_unsealer.Controller.Conditions.{put, without}

-- The condition of a type: the first that is listed.
unfoldable pub find_condition : Text → List Condition → Option Condition
find_condition type [] = none
find_condition type (c ∷ cs) = if text_eq c.type type then some c else find_condition type cs

-- The types, in order.
abbrev pub types : List Condition → List Text
types [] = []
types (c ∷ cs) = c.type ∷ types cs

-- At most one condition of each type.
abbrev pub IsTable : List Condition → Type 0
IsTable cs = IsDistinct (types cs)

-- A condition that is put in is found under its type, and every other type finds what it found.
pub find_condition-put :
    (type : Text) (c : Condition) (cs : List Condition)
    → find_condition type (put c cs)
      ≡ (if text_eq c.type type then some c else find_condition type cs)
unfolding find_condition put
find_condition-put type c [] = refl
find_condition-put type c (d ∷ cs) = ground (
  arith,
  find_condition-put type c cs,
  text_eq_iff d.type c.type,
  text_eq_iff d.type type,
  text_eq_iff c.type type,
)

All-put :
    (P : Text → Type 0) (c : Condition) (cs : List Condition)
    → P c.type
    → All P (types cs)
    → All P (types (put c cs))
unfolding put
All-put P c [] p h = (p, tt)
All-put P c (d ∷ cs) p h = ground (arith, All-put P c cs p h.1)

pub put-IsTable : (c : Condition) (cs : List Condition) → IsTable cs → IsTable (put c cs)
unfolding put
put-IsTable c [] h = (tt, tt)
put-IsTable c (d ∷ cs) h = elim (Bool-cases (text_eq d.type c.type)) [
  | inl same ↦ rw (same, put) (rw ((text_eq_iff d.type c.type).0 same) at h)
  | inr other ↦
      rw (other, put)
        (
          All-put (λ y. d.type ≢ y) c cs (λ e. ground (arith, text_eq_iff d.type c.type)) h.0,
          put-IsTable c cs h.1,
        )
]

All-without :
    (P : Text → Type 0) (type : Text) (cs : List Condition)
    → All P (types cs)
    → All P (types (without type cs))
unfolding without
All-without P type [] h = tt
All-without P type (d ∷ cs) h = ground (arith, All-without P type cs h.1)

pub without-IsTable : (type : Text) (cs : List Condition) → IsTable cs → IsTable (without type cs)
unfolding without
without-IsTable type [] h = tt
without-IsTable type (d ∷ cs) h = elim (Bool-cases (text_eq d.type type)) [
  | inl same ↦ rw (same, without) h.1
  | inr other ↦
      rw (other, without) (All-without (λ y. d.type ≢ y) type cs h.0, without-IsTable type cs h.1)
]

find_condition-fresh :
    (type : Text) (cs : List Condition)
    → All (λ y. type ≢ y) (types cs)
    → find_condition type cs ≡ none
unfolding find_condition
find_condition-fresh type [] h = refl
find_condition-fresh type (c ∷ cs) h =
    ground (arith, find_condition-fresh type cs h.1, text_eq_iff c.type type)

-- In a list with no type twice, clearing a type leaves nothing under it, and every other type finds
-- what it found.
pub find_condition-without :
    (type cleared : Text) (cs : List Condition)
    → IsTable cs
    → find_condition type (without cleared cs)
      ≡ (if text_eq cleared type then none else find_condition type cs)
unfolding find_condition without
find_condition-without type cleared [] h = ground arith
find_condition-without type cleared (d ∷ cs) h = ground (
  arith,
  find_condition-without type cleared cs h.1,
  find_condition-fresh d.type cs h.0,
  text_eq_iff d.type cleared,
  text_eq_iff d.type type,
  text_eq_iff cleared type,
)
