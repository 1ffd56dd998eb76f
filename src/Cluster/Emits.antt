-- ===== src/Cluster/Emits.antt =====
-- What a program adds to the history: one rule for each way to build a program.
use vault_unsealer.Prelude.{
  ◌≡◌, refl, sym, ap, ◌∙◌, [], ◌∷◌, ◌++◌, append_assoc, Bool, true, false, if◌then◌else◌, All,
  All-append,
}
use vault_unsealer.Cluster.{Call, Trace, Prog, pure, perform, emit, ◌>>=◌}

-- Every call that the program adds satisfies `P`.
pub record Emits {ℓ} {A : Type ℓ} (P : Call → Type 0) (m : Prog A) : Type ℓ where
  pub at : (t : Trace) → (new : Trace) × ((m t).1 ≡ new ++ t) × All P new

module _ {ℓ} {A : Type ℓ} {P : Call → Type 0} where
  pub Emits-pure : (a : A) → Emits P (pure a)
  unfolding pure
  Emits-pure a = record { at = λ t. ([], refl, tt) }

  pub Emits-perform : (c : Call) (answer : Trace → A) → P c → Emits P (perform c answer)
  unfolding perform
  Emits-perform c answer h = record { at = λ t. (c ∷ [], refl, (h, tt)) }

  pub Emits-if :
      (b : Bool) (m n : Prog A)
      → (b ≡ true → Emits P m)
      → (b ≡ false → Emits P n)
      → Emits P (if b then m else n)
  Emits-if true m n hm hn = hm refl
  Emits-if false m n hm hn = hn refl

pub Emits-emit : {P : Call → Type 0} (c : Call) → P c → Emits P (emit c)
unfolding emit
Emits-emit c h = record { at = λ t. (c ∷ [], refl, (h, tt)) }

module _ {ℓ κ} {A : Type ℓ} {B : Type κ} {P : Call → Type 0} where
  -- the rest may use what the first part answers
  pub Emits-bind_of :
      (m : Prog A) (f : A → Prog B)
      → Emits P m
      → ((t : Trace) → Emits P (f (m t).0))
      → Emits P (m >>= f)
  unfolding ◌>>=◌
  Emits-bind_of m f hm hf = record {
    at = λ t.
        let (first, e, h) = hm.at t in
        let (second, e', h') = (hf t).at (m t).1 in
        (
          second ++ first,
          e' ∙ ap (λ l. second ++ l) e ∙ sym (append_assoc second first t),
          All-append P second first h' h,
        );
  }

  pub Emits-bind :
      (m : Prog A) (f : A → Prog B) → Emits P m → ((a : A) → Emits P (f a)) → Emits P (m >>= f)
  Emits-bind m f hm hf = Emits-bind_of m f hm (λ t. hf (m t).0)

pub ruleset emits_rules = (Emits-pure, Emits-perform, Emits-emit, Emits-if, Emits-bind)

pub All-mono : {P Q : Call → Type 0} (f : (c : Call) → P c → Q c) (t : Trace) → All P t → All Q t
All-mono f [] h = tt
All-mono f (c ∷ t) h = (f c h.0, All-mono f t h.1)

pub Emits-mono {ℓ} :
    {A : Type ℓ} {P Q : Call → Type 0} {m : Prog A}
    → ((c : Call) → P c → Q c)
    → Emits P m
    → Emits Q m
Emits-mono f h = record { at = λ t. let (new, e, all) = h.at t in (new, e, All-mono f new all) }
