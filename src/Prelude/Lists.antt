-- ===== src/Prelude/Lists.antt =====
-- Lists measured by native numbers, under the library's names, and predicates on lists by recursion.
use Prim.Native.Nat.{ℕ, zero, suc, ◌+◌, ◌≤◌, min}
use mathlib.Core.Path.{◌≡◌, refl, ap, subst, sym}
use mathlib.Core.Logic.{◌≢◌}
use mathlib.Core.List.{List, [], ◌∷◌, ◌++◌, Memᴰ}
use mathlib.Core.Bool.{Bool, true, ◌&&◌}
use native.Mathlib.Omega.{arith}

module _ {ℓ} {A : Type ℓ} where
  abbrev pub length : List A → ℕ
  length [] = 0
  length (x ∷ xs) = suc (length xs)

  abbrev pub take : ℕ → List A → List A
  take zero xs = []
  take (suc n) [] = []
  take (suc n) (x ∷ xs) = x ∷ take n xs

  abbrev pub all : (A → Bool) → List A → Bool
  all p [] = true
  all p (x ∷ xs) = p x && all p xs

module _ {ℓ κ} {A : Type ℓ} where
  abbrev pub All : (A → Type κ) → List A → Type κ
  All P [] = Unit
  All P (x ∷ xs) = P x × All P xs

module _ {ℓ} {A : Type ℓ} where
  -- No element stands at two places.
  abbrev pub IsDistinct : List A → Type ℓ
  IsDistinct [] = Unit
  IsDistinct (x ∷ xs) = All (λ y. x ≢ y) xs × IsDistinct xs

module _ {ℓ} {A : Type ℓ} where
  pub length-append : (xs ys : List A) → length (xs ++ ys) ≡ length xs + length ys
  length-append [] ys = omega arith
  length-append (x ∷ xs) ys = omega (arith, length-append xs ys)

  pub length-take : (n : ℕ) (xs : List A) → length (take n xs) ≡ min n (length xs)
  length-take zero xs = omega arith
  length-take (suc n) [] = omega arith
  length-take (suc n) (x ∷ xs) = omega (arith, length-take n xs)

  pub take_of_length-le : (n : ℕ) (xs : List A) → length xs ≤ n → take n xs ≡ xs
  take_of_length-le zero [] h = refl
  take_of_length-le zero (x ∷ xs) h = absurd (omega arith)
  take_of_length-le (suc n) [] h = refl
  take_of_length-le (suc n) (x ∷ xs) h = ap (λ l. x ∷ l) (take_of_length-le n xs (omega arith))

module _ {ℓ κ} {A : Type ℓ} (P : A → Type κ) where
  pub All-append : (xs ys : List A) → All P xs → All P ys → All P (xs ++ ys)
  All-append [] ys _ k = k
  All-append (x ∷ xs) ys (p, h) k = (p, All-append xs ys h k)

  pub All-of_Memᴰ : {a : A} (xs : List A) → All P xs → Memᴰ a xs → P a
  All-of_Memᴰ [] h m = elim m [ ]
  All-of_Memᴰ (x ∷ xs) (p, h) (Memᴰ.head e) = subst P (sym e) p
  All-of_Memᴰ (x ∷ xs) (p, h) (Memᴰ.tail m) = All-of_Memᴰ xs h m

  pub All-take : (n : ℕ) (xs : List A) → All P xs → All P (take n xs)
  All-take zero xs h = tt
  All-take (suc n) [] h = tt
  All-take (suc n) (x ∷ xs) (p, h) = (p, All-take n xs h)

module _ {ℓ} {A : Type ℓ} where
  pub IsDistinct-take : (n : ℕ) (xs : List A) → IsDistinct xs → IsDistinct (take n xs)
  IsDistinct-take zero xs h = tt
  IsDistinct-take (suc n) [] h = tt
  IsDistinct-take (suc n) (x ∷ xs) (fresh, h) =
      (All-take (λ y. x ≢ y) n xs fresh, IsDistinct-take n xs h)

  pub Memᴰ-of_take : {a : A} (n : ℕ) (xs : List A) → Memᴰ a (take n xs) → Memᴰ a xs
  Memᴰ-of_take zero xs m = elim m [ ]
  Memᴰ-of_take (suc n) [] m = m
  Memᴰ-of_take (suc n) (x ∷ xs) (Memᴰ.head e) = Memᴰ.head e
  Memᴰ-of_take (suc n) (x ∷ xs) (Memᴰ.tail m) = Memᴰ.tail (Memᴰ-of_take n xs m)
