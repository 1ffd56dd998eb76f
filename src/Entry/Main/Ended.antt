-- ===== src/Entry/Main/Ended.antt =====
-- How the process ends, and what is done before the manager is started, read off the steps that were
-- made.
use vault_unsealer.Prelude.{
  ℕ, zero, suc, Option, none, some, ◌≡◌, refl, sym, ap₂, subst, Bool, true, false, List, [], ◌∷◌,
  ◌++◌, Memᴰ, All, All-append, Bool-cases, inl, inr,
}
use vault_unsealer.Text.{codes}
use vault_unsealer.Entry.Slices.{Arrays}
use vault_unsealer.Entry.Boot.{
  Watcher, TlsOption, ManagerOptions, Step, clientgo, v1alpha1, add_to_scheme, complete_controller,
  complete_webhook, add_watcher, add_healthz_check, add_readyz_check, start, Exit, panicked, exited,
  Outcome, go, stop,
}
use vault_unsealer.Entry.Boot.Triples.{Plan, executed}
use vault_unsealer.Entry.Main.{failure, Flags, webhook_watcher, metrics_watcher, main}
use vault_unsealer.Entry.Main.Layout.{
  watch, add, serving, has_webhook, has_metrics, plan, options_at,
}
use vault_unsealer.Entry.Main.Order.{started, main-plan}

-- How a failure of the step ends the process.
abbrev pub exit_of : Step → Exit
exit_of (add_to_scheme scheme) = panicked
exit_of step = exited 1

-- The steps that the manager needs before it is started.
abbrev wanted : Bool → Step → List Step
wanted true step = step ∷ []
wanted false step = []

abbrev needed_by : Bool → Bool → Flags → List Step
needed_by webhook metrics flags =
    add_to_scheme clientgo
    ∷ add_to_scheme v1alpha1
    ∷ complete_controller (codes "VaultUnsealer") (codes "vaultunsealer")
    ∷ complete_webhook (codes "VaultUnsealer")
    ∷ add_healthz_check (codes "healthz")
    ∷ add_readyz_check (codes "readyz")
    ∷ (wanted metrics (add_watcher (metrics_watcher flags))
        ++ wanted webhook (add_watcher (webhook_watcher flags)))

abbrev pub needed : Flags → List Step
needed flags = needed_by (has_webhook flags) (has_metrics flags) flags

-- A start of the manager stands behind all of `needs`.
abbrev IsStart : List Step → List Step → Step → Type 0
IsStart needs older start = All (λ step. Memᴰ step older) needs
IsStart needs older step = Unit

abbrev pub AreStarts : List Step → List Step → Type 0
AreStarts needs [] = Unit
AreStarts needs (step ∷ older) = IsStart needs older step × AreStarts needs older

abbrev nth : ℕ → List Step → Option Step
nth n [] = none
nth zero (step ∷ steps) = some step
nth (suc n) (step ∷ steps) = nth n steps

nth-Memᴰ : {step : Step} {steps : List Step} (n : ℕ) → nth n steps ≡ some step → Memᴰ step steps
nth-Memᴰ {steps = []} n e = absurd (cc)
nth-Memᴰ {steps = s ∷ steps} zero e = Memᴰ.head (cc)
nth-Memᴰ {steps = s ∷ steps} (suc n) e = Memᴰ.tail (nth-Memᴰ n e)

abbrev picked : List ℕ → List Step → List (Option Step)
picked [] steps = []
picked (n ∷ ns) steps = nth n steps ∷ picked ns steps

abbrev given : List Step → List (Option Step)
given [] = []
given (step ∷ needs) = some step ∷ given needs

-- Steps that stand at the given places of a history are in it.
picked-All :
    (ns : List ℕ) (steps needs : List Step)
    → picked ns steps ≡ given needs
    → All (λ step. Memᴰ step steps) needs
picked-All ns steps [] e = tt
picked-All [] steps (step ∷ needs) e = absurd (cc)
picked-All (n ∷ ns) steps (step ∷ needs) e = (nth-Memᴰ n (cc), picked-All ns steps needs (cc))

-- The history when all steps of the plan succeed.
abbrev behind : List Step → Plan → List Step
behind history [] = history
behind history ((step, e) ∷ rest) = behind (step ∷ history) rest

behind-AreStarts :
    (needs history : List Step) (rest : Plan)
    → AreStarts needs (behind history rest)
    → AreStarts needs history
behind-AreStarts needs history [] h = h
behind-AreStarts needs history ((step, e) ∷ rest) h =
    (behind-AreStarts needs (step ∷ history) rest h).1

-- The failures of a plan end as they should.
abbrev AreExits : Plan → Type 0
AreExits = All (λ (p : Step × Exit). p.1 ≡ exit_of p.0)

watch-AreExits : (b : Bool) (w : Watcher) → AreExits (watch b w)
watch-AreExits true w = (refl, tt)
watch-AreExits false w = tt

add-AreExits : (b : Bool) (w : Watcher) → AreExits (add b w)
add-AreExits true w = (refl, tt)
add-AreExits false w = tt

plan-AreExits : (flags : Flags) (options : ManagerOptions) → AreExits (plan flags options)
plan-AreExits flags options =
    let checks : AreExits (
        (add_healthz_check (codes "healthz"), failure)
        ∷ (add_readyz_check (codes "readyz"), failure)
        ∷ (start, failure)
        ∷ []) =
      (refl, (refl, (refl, tt))) in
    let adding =
      All-append _ _ _ (add-AreExits (has_metrics flags) (metrics_watcher flags))
        (All-append _ _ _ (add-AreExits (has_webhook flags) (webhook_watcher flags)) checks) in
    let setup : AreExits (serving flags options) = (refl, (refl, (refl, (refl, adding)))) in
    let watching =
      All-append _ _ _ (watch-AreExits (has_webhook flags) (webhook_watcher flags))
        (All-append _ _ _ (watch-AreExits (has_metrics flags) (metrics_watcher flags)) setup) in
    (refl, (refl, watching))

module _ (fails : List Step → Step → Bool) where
  -- No step failed.
  abbrev pub IsQuiet : List Step → Type 0
  IsQuiet [] = Unit
  IsQuiet (step ∷ older) = (fails older step ≡ false) × IsQuiet older

  -- Either the process returned, no step failed and the last one is the start of the manager, or the
  -- last step is the first that failed and ended the process.
  abbrev pub IsEnded : Outcome (Unit {0}) → List Step → Type 0
  IsEnded (go u) steps = IsQuiet steps × ((older : List Step) × (steps ≡ start ∷ older))
  IsEnded (stop e) [] = ⊥
  IsEnded (stop e) (step ∷ older) = (fails older step ≡ true) × IsQuiet older × (e ≡ exit_of step)

  abbrev Ends : List Step → Outcome (Unit {0}) × List Step → Type 0
  Ends needs r = IsEnded r.0 r.1 × AreStarts needs r.1

  executed-Ends :
      (needs history : List Step) (rest : Plan)
      → IsQuiet history
      → AreExits rest
      → AreStarts needs (behind history rest)
      → ((older : List Step) × (behind history rest ≡ start ∷ older))
      → Ends needs (executed fails history rest)
  unfolding executed
  executed-Ends needs history [] quiet exits starts last = ((quiet, last), starts)
  executed-Ends needs history ((step, e) ∷ rest) quiet (exit, exits) starts last =
      elim (Bool-cases (fails history step)) [
        | inl y ↦ rw y ((y, quiet, exit), behind-AreStarts needs (step ∷ history) rest starts)
        | inr n ↦ rw n (executed-Ends needs (step ∷ history) rest (n, quiet) exits starts last)
      ]

-- The start is the last step of the plan, and stands behind all that is needed.
abbrev Arranged : List Step → List Step → Type 0
Arranged needs steps = AreStarts needs steps × ((older : List Step) × (steps ≡ start ∷ older))

arranged :
    (ns : List ℕ) (needs older steps : List Step)
    → steps ≡ start ∷ older
    → picked ns older ≡ given needs
    → AreStarts needs older
    → Arranged needs steps
arranged ns needs older steps e found starts =
    subst (Arranged needs) (sym e) ((picked-All ns older needs found, starts), (older, refl))

by_flags :
    (flags : Flags) (options : ManagerOptions) (webhook metrics : Bool)
    → has_webhook flags ≡ webhook
    → has_metrics flags ≡ metrics
    → Arranged (needed_by webhook metrics flags) (behind [] (plan flags options))
    → Arranged (needed flags) (behind [] (plan flags options))
by_flags flags options webhook metrics w m =
    subst (λ needs. Arranged needs (behind [] (plan flags options)))
      (ap₂ (λ a b. needed_by a b flags) (sym w) (sym m))

plan-Arranged :
    (flags : Flags) (options : ManagerOptions) (webhook metrics : Bool)
    → has_webhook flags ≡ webhook
    → has_metrics flags ≡ metrics
    → Arranged (needed flags) (behind [] (plan flags options))
plan-Arranged flags options true true w m =
    let at = 11 ∷ 10 ∷ 5 ∷ 4 ∷ 1 ∷ 0 ∷ 3 ∷ 2 ∷ [] in
    by_flags flags options true true w m
      (rw (w, m) (arranged at (needed_by true true flags) _ _ refl refl _))
plan-Arranged flags options true false w m =
    let at = 9 ∷ 8 ∷ 4 ∷ 3 ∷ 1 ∷ 0 ∷ 2 ∷ [] in
    by_flags flags options true false w m
      (rw (w, m) (arranged at (needed_by true false flags) _ _ refl refl _))
plan-Arranged flags options false true w m =
    let at = 9 ∷ 8 ∷ 4 ∷ 3 ∷ 1 ∷ 0 ∷ 2 ∷ [] in
    by_flags flags options false true w m
      (rw (w, m) (arranged at (needed_by false true flags) _ _ refl refl _))
plan-Arranged flags options false false w m =
    let at = 7 ∷ 6 ∷ 3 ∷ 2 ∷ 1 ∷ 0 ∷ [] in
    by_flags flags options false false w m
      (rw (w, m) (arranged at (needed_by false false flags) _ _ refl refl _))

module _ (grow : ℕ → ℕ) (fails : List Step → Step → Bool) (flags : Flags)
    (h : Arrays TlsOption) where
  -- main returns exactly when no step fails, with the start of the manager as its last step; otherwise
  -- it ends at the first step that fails, by a panic if that registers the types of a scheme and by the
  -- exit status 1 if it is any other. The manager is started only behind the registration of both
  -- schemes, the setup of the controller and of the webhook, both health checks, and the adding of each
  -- certificate watcher whose directory is given.
  pub main-IsEnded :
      (let p = main grow fails flags (started h) in
        IsEnded fails p.0 p.1.steps × AreStarts (needed flags) p.1.steps)
  main-IsEnded =
      let options = options_at grow flags h in
      let (starts, last) = plan-Arranged flags options _ _ refl refl in
      subst (Ends fails (needed flags)) (sym (main-plan grow fails flags h)) (
        executed-Ends fails (needed flags) [] (plan flags options) tt (plan-AreExits flags options)
          starts last)
