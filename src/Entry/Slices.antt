-- ===== src/Entry/Slices.antt =====
-- Go slices over arrays that they may share. The runtime chooses the capacity of an array that
-- `append` makes, so it is a parameter: a function of the length that is needed.
use vault_unsealer.Prelude.{
  ℕ, zero, suc, List, [], ◌∷◌, Option, none, some, ltb, ◌==◌, ◌&&◌, if◌then◌else◌,
}

pub record Slice : Type 0 where
  pub array : ℕ
  pub length : ℕ
  pub capacity : ℕ

pub record Arrays (A : Type 0) : Type 0 where
  pub next : ℕ
  pub cell : ℕ → ℕ → Option A

-- a nil slice, and no arrays
abbrev pub nil_slice : Slice
nil_slice = record { array = 0; length = 0; capacity = 0 }

module _ {A : Type 0} where
  abbrev pub no_arrays : Arrays A
  no_arrays = record { next = 1; cell = λ a i. none }

  abbrev cells : Arrays A → ℕ → ℕ → ℕ → List (Option A)
  cells h a i zero = []
  cells h a i (suc n) = h.cell a i ∷ cells h a (suc i) n

  abbrev pub contents : Arrays A → Slice → List (Option A)
  contents h s = cells h s.array 0 s.length

  -- append(s, x): in place while there is room, and else in a new array
  unfoldable pub append : (ℕ → ℕ) → Slice → A → Arrays A → Slice × Arrays A
  append grow s x h =
      if ltb s.length s.capacity
      then (
        record s { length = suc s.length },
        record h { cell = λ a i. if a == s.array && i == s.length then some x else h.cell a i },
      )
      else (
        record { array = h.next; length = suc s.length; capacity = grow (suc s.length) },
        record {
          next = suc h.next;
          cell = λ a i.
              if a == h.next
              then (if i == s.length then some x else h.cell s.array i)
              else h.cell a i;
        },
      )
