-- ===== src/Cluster/Counts.antt =====
-- How many calls of a kind a program adds to the history at most: one rule for each way to build a
-- program.
use vault_unsealer.Prelude.{
  ℕ, suc, ◌+◌, ◌≤◌, ◌≡◌, refl, Bool, true, false, [], ◌∷◌, ◌++◌, if◌then◌else◌, All, arith,
}
use vault_unsealer.Cluster.{Call, Trace, Prog, pure, perform, emit, ◌>>=◌}
use vault_unsealer.Cluster.Emits.{Emits}

unfoldable pub count : (Call → Bool) → Trace → ℕ
count p [] = 0
count p (c ∷ t) = let rest = count p t in if p c then suc rest else rest

pub record AtMost {ℓ} {A : Type ℓ} (p : Call → Bool) (n : ℕ) (m : Prog A) : Type ℓ where
  pub at : (t : Trace) → count p (m t).1 ≤ n + count p t

count-append :
    (p : Call → Bool) (new t : Trace) → All (λ c. p c ≡ false) new → count p (new ++ t) ≡ count p t
unfolding count
count-append p [] t h = refl
count-append p (c ∷ new) t h = ground (arith, count-append p new t h.1)

-- A program that makes no call of the kind.
pub AtMost-of_Emits {ℓ} :
    {A : Type ℓ} {p : Call → Bool} (m : Prog A) → Emits (λ c. p c ≡ false) m → AtMost p 0 m
AtMost-of_Emits {p = p} m h = record {
  at = λ t. let (new, e, all) = h.at t in rw e (let same = count-append p new t all in omega arith);
}

module _ {ℓ} {A : Type ℓ} {p : Call → Bool} where
  pub AtMost-pure : (n : ℕ) (a : A) → AtMost p n (pure a)
  unfolding pure
  AtMost-pure n a = record { at = λ t. omega arith }

  pub AtMost-perform : (c : Call) (answer : Trace → A) → AtMost p 1 (perform c answer)
  unfolding perform count
  AtMost-perform c answer = record { at = λ t. ground arith }

  pub AtMost-if :
      (n : ℕ) (b : Bool) (k m : Prog A)
      → (b ≡ true → AtMost p n k)
      → (b ≡ false → AtMost p n m)
      → AtMost p n (if b then k else m)
  AtMost-if n true k m hk hm = hk refl
  AtMost-if n false k m hk hm = hm refl

  pub AtMost-mono : {j k : ℕ} {m : Prog A} → j ≤ k → AtMost p j m → AtMost p k m
  AtMost-mono le h = record { at = λ t. let small = h.at t in omega arith }

pub AtMost-emit : {p : Call → Bool} (c : Call) → AtMost p 1 (emit c)
unfolding emit count
AtMost-emit c = record { at = λ t. ground arith }

module _ {ℓ κ} {A : Type ℓ} {B : Type κ} {p : Call → Bool} where
  -- the rest may use what the first part answers
  pub AtMost-bind_of :
      (j k : ℕ) {n : ℕ} (m : Prog A) (f : A → Prog B)
      → j + k ≤ n
      → AtMost p j m
      → ((t : Trace) → AtMost p k (f (m t).0))
      → AtMost p n (m >>= f)
  unfolding ◌>>=◌
  AtMost-bind_of j k m f le hm hf = record {
    at = λ t. let first = hm.at t in let second = (hf t).at (m t).1 in omega arith;
  }

  pub AtMost-bind :
      (j k : ℕ) {n : ℕ} (m : Prog A) (f : A → Prog B)
      → j + k ≤ n
      → AtMost p j m
      → ((a : A) → AtMost p k (f a))
      → AtMost p n (m >>= f)
  AtMost-bind j k m f le hm hf = AtMost-bind_of j k m f le hm (λ t. hf (m t).0)
