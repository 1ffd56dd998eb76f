-- ===== src/Entry/Boot/Triples.antt =====
-- What a program of the entry point does: the steps of a plan, as far as they succeed, and a property
-- of what it leaves.
use vault_unsealer.Prelude.{
  ◌≡◌, refl, sym, ap, subst, ◌∙◌, Bool, true, false, List, [], ◌∷◌, ◌++◌, if◌then◌else◌, Bool-cases,
  inl, inr,
}
use vault_unsealer.Entry.Boot.{
  Step, Exit, Outcome, go, stop, State, Boot, pure, bind_outcome, ◌>>=◌, attempt,
}

-- Steps to make, each with the end of the process if it fails.
abbrev pub Plan : Type 0
Plan = List (Step × Exit)

module _ (fails : List Step → Step → Bool) where
  -- Make the steps behind those of a history, up to the first that fails.
  unfoldable pub executed : List Step → Plan → Outcome (Unit {0}) × List Step
  executed history [] = (go tt, history)
  executed history ((step, e) ∷ plan) =
      let rest = executed (step ∷ history) plan in
      if fails history step then (stop e, step ∷ history) else rest

  abbrev continued : Outcome (Unit {0}) × List Step → Plan → Outcome (Unit {0}) × List Step
  continued (go u, history) plan = executed history plan
  continued (stop e, history) plan = (stop e, history)

  executed-append :
      (history : List Step) (first second : Plan)
      → executed history (first ++ second) ≡ continued (executed history first) second
  unfolding executed
  executed-append history [] second = refl
  executed-append history ((step, e) ∷ first) second =
      by_test (fails history step) (executed-append (step ∷ history) first second)
    where
      by_test :
          (b : Bool)
          → executed (step ∷ history) (first ++ second)
            ≡ continued (executed (step ∷ history) first) second
          → (if b then (stop e, step ∷ history) else executed (step ∷ history) (first ++ second))
            ≡ continued
                (if b then (stop e, step ∷ history) else executed (step ∷ history) first)
                second
      by_test true ih = refl
      by_test false ih = ih

  module _ {ℓ} {A : Type ℓ} (F : State → Type 0) where
    abbrev DoesAt : Outcome A × State → List Step → Plan → (A → State → Type 0) → Type 0
    DoesAt (go a, s) history plan Post = (executed history plan ≡ (go tt, s.steps)) × Post a s
    DoesAt (stop e, s) history plan Post = (executed history plan ≡ (stop e, s.steps)) × F s

    -- The result `r` is what the plan leads to from a history. If it is a value, it and the state
    -- satisfy `Post`; if the process ends, the state satisfies `F`.
    pub record Does (r : Outcome A × State) (history : List Step) (plan : Plan)
        (Post : A → State → Type 0) : Type 0 where
      pub at : DoesAt r history plan Post

  module _ (F : State → Type 0) where
    pub Does-pure {ℓ} :
        {A : Type ℓ} {Post : A → State → Type 0} (a : A) (s : State)
        → Post a s
        → Does F (pure a s) s.steps [] Post
    unfolding executed pure
    Does-pure a s h = record { at = (refl, h) }

    -- the state behind a step
    abbrev pub behind : Step → State → State
    behind step s = record s { steps = step ∷ s.steps }

    pub Does-attempt :
        {Post : Unit {0} → State → Type 0} (e : Exit) (step : Step) (s : State)
        → Post tt (behind step s)
        → F (behind step s)
        → Does F (attempt fails e step s) s.steps ((step, e) ∷ []) Post
    unfolding executed attempt
    Does-attempt {Post} e step s h f = elim (Bool-cases (fails s.steps step)) [
      | inl y ↦ record { at = rw y (rw y, f) }
      | inr n ↦ record { at = rw n (rw n, h) }
    ]

    Does-bind_outcome {ℓ κ} :
        {A : Type ℓ} {B : Type κ} {Mid : A → State → Type 0} {Post : B → State → Type 0}
        (r : Outcome A × State) (f : A → Boot B) (history : List Step) (first second : Plan)
        → Does F r history first Mid
        → ((a : A) (s' : State) → Mid a s' → Does F (f a s') s'.steps second Post)
        → Does F (bind_outcome r f) history (first ++ second) Post
    unfolding bind_outcome
    Does-bind_outcome {B = B} {Post = Post} (go a, s) f history first second h k =
        let (e, mid) = h.at in
        let same = executed-append history first second ∙ ap (λ r. continued r second) e in
        later (f a s) same (k a s mid)
      where
        later :
            (r : Outcome B × State)
            → executed history (first ++ second) ≡ executed s.steps second
            → Does F r s.steps second Post
            → Does F r history (first ++ second) Post
        later (go b, s') same d = record { at = (same ∙ d.at.0, d.at.1) }
        later (stop x, s') same d = record { at = (same ∙ d.at.0, d.at.1) }
    Does-bind_outcome (stop x, s) f history first second h k =
        let (e, final) = h.at in
        record {
          at = (executed-append history first second ∙ ap (λ r. continued r second) e, final);
        }

    pub Does-bind {ℓ κ} :
        {A : Type ℓ} {B : Type κ} {Mid : A → State → Type 0} {Post : B → State → Type 0}
        (m : Boot A) (f : A → Boot B) (s : State) (first second : Plan)
        → Does F (m s) s.steps first Mid
        → ((a : A) (s' : State) → Mid a s' → Does F (f a s') s'.steps second Post)
        → Does F ((m >>= f) s) s.steps (first ++ second) Post
    unfolding ◌>>=◌
    Does-bind m f s first second h k = Does-bind_outcome (m s) f s.steps first second h k

    -- A step, and the rest if it succeeds.
    pub Does-step {ℓ} :
        {A : Type ℓ} {Post : A → State → Type 0} (e : Exit) (step : Step) (rest : Boot A)
        (s : State) (plan : Plan)
        → F (behind step s)
        → Does F (rest (behind step s)) (step ∷ s.steps) plan Post
        → Does F ((attempt fails e step >>= λ _. rest) s) s.steps ((step, e) ∷ plan) Post
    Does-step {Post = Post} e step rest s plan f d =
        Does-bind (attempt fails e step) (λ _. rest) s ((step, e) ∷ []) plan
          (Does-attempt {Post = λ u s'. s' ≡ behind step s} e step s refl f)
          λ u s' same. subst (λ (x : State). Does F (rest x) x.steps plan Post) (sym same) d
