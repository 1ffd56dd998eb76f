-- ===== src/Entry/Main/Stages.antt =====
-- The parts of main, each with the steps that it makes and what it leaves in the memory.
use vault_unsealer.Prelude.{
  ℕ, ◌≡◌, refl, ap, Bool, true, false, List, [], ◌∷◌, Option, none, some, if◌then◌else◌, All,
}
use vault_unsealer.Text.{codes}
use vault_unsealer.Entry.Slices.{Slice, Arrays, nil_slice, append}
use vault_unsealer.Entry.Boot.{
  Watcher, TlsOption, disable_http2, certificates_of, Step, new_cert_watcher, get_config,
  new_manager, complete_controller, complete_webhook, add_watcher, add_healthz_check,
  add_readyz_check, start, State, Boot, pure, ◌>>=◌, ◌>>◌, attempt,
}
use vault_unsealer.Entry.Boot.Triples.{Does, Does-pure, Does-attempt, Does-bind, Does-step, behind}
use vault_unsealer.Entry.Main.{
  Flags, webhook_watcher, metrics_watcher, failure, append_option, add_if, setup_controller,
  setup_webhook, serve,
}
use vault_unsealer.Entry.Main.Layout.{
  has_webhook, has_metrics, watch, add, serving, extended, for_webhook, for_metrics, options_at,
}

-- No manager was made.
abbrev pub IsEarly : Step → Type 0
IsEarly (new_manager options) = ⊥
IsEarly step = Unit

module _ (grow : ℕ → ℕ) (fails : List Step → Step → Bool) (flags : Flags)
    (h : Arrays TlsOption) where
  -- If the step makes the manager, it gives it the options and leaves the memory as it is meant to be.
  abbrev pub IsLaidOut : Arrays TlsOption → Step → Type 0
  IsLaidOut arrays (new_manager options) =
      (options ≡ options_at grow flags h) × (arrays ≡ (for_metrics grow flags h).1)
  IsLaidOut arrays step = Unit

  abbrev pub AreLaidOut : State → Type 0
  AreLaidOut s = All (IsLaidOut s.arrays) s.steps

  pub early :
      (arrays : Arrays TlsOption) (steps : List Step)
      → All IsEarly steps
      → All (IsLaidOut arrays) steps
  early arrays [] e = tt
  early arrays (new_manager options ∷ steps) e = absurd e.0
  early arrays (step ∷ steps) e = (tt, early arrays steps e.1)

  -- Before the manager is made, with a slice and the memory.
  abbrev pub Before : Slice × Arrays TlsOption → Slice → State → Type 0
  Before (wanted, memory) tls s = (tls ≡ wanted) × (s.arrays ≡ memory) × All IsEarly s.steps

  pub tls_opts-Does :
      (b : Bool) (s : State)
      → s.arrays ≡ h
      → All IsEarly s.steps
      → Does fails AreLaidOut
          ((if b then append_option grow fails nil_slice disable_http2 else pure nil_slice) s)
          s.steps
          []
          (Before (extended grow b disable_http2 nil_slice h))
  unfolding append_option
  tls_opts-Does true s same e = Does-pure fails AreLaidOut _ _ (
    ap (λ a. (append grow nil_slice disable_http2 a).0) same,
    ap (λ a. (append grow nil_slice disable_http2 a).1) same,
    e,
  )
  tls_opts-Does false s same e = Does-pure fails AreLaidOut _ _ (refl, same, e)

  abbrev pub watched : Bool → Watcher → Option Watcher
  watched true w = some w
  watched false w = none

  abbrev pub BeforeWith :
      Option Watcher → Slice × Arrays TlsOption → Option Watcher × Slice → State → Type 0
  BeforeWith wanted memory (w, tls) s = (w ≡ wanted) × Before memory tls s

  abbrev pub watching : Watcher → Slice → Boot (Option Watcher × Slice)
  watching w tls = do
    attempt fails failure (new_cert_watcher w)
    longer ← append_option grow fails tls (certificates_of w)
    pure (some w, longer)

  pub watching-Does :
      (b : Bool) (w : Watcher) (tls : Slice) (s : State)
      → All IsEarly s.steps
      → Does fails AreLaidOut
          ((if b then watching w tls else pure (none, tls)) s)
          s.steps
          (watch b w)
          (BeforeWith (watched b w) (extended grow b (certificates_of w) tls s.arrays))
  unfolding append_option ◌>>=◌ pure
  watching-Does true w tls s e =
      Does-step fails AreLaidOut failure (new_cert_watcher w) _ s []
        (early _ (new_cert_watcher w ∷ s.steps) (tt, e))
        (Does-pure fails AreLaidOut _ _ (refl, (refl, refl, (tt, e))))
  watching-Does false w tls s e = Does-pure fails AreLaidOut _ _ (refl, (refl, refl, e))

  add_if-Does :
      (b : Bool) (w : Watcher) (s : State)
      → AreLaidOut s
      → Does fails AreLaidOut
          (add_if grow fails (watched b w) s)
          s.steps
          (add b w)
          (λ u s'. AreLaidOut s')
  unfolding add_if
  add_if-Does true w s good =
      Does-attempt fails AreLaidOut failure (add_watcher w) s (tt, good) (tt, good)
  add_if-Does false w s good = Does-pure fails AreLaidOut _ _ good

  -- the last steps
  ending : Boot (Unit {0})
  ending = do
    attempt fails failure (add_healthz_check (codes "healthz"))
    attempt fails failure (add_readyz_check (codes "readyz"))
    attempt fails failure start

  ending-Does :
      (s : State)
      → AreLaidOut s
      → Does fails AreLaidOut
          (ending s)
          s.steps
          ((add_healthz_check (codes "healthz"), failure)
            ∷ (add_readyz_check (codes "readyz"), failure)
            ∷ (start, failure)
            ∷ [])
          (λ u s'. AreLaidOut s')
  unfolding ending
  ending-Does s good =
      Does-step fails AreLaidOut failure (add_healthz_check (codes "healthz")) _ s _ (tt, good)
        (Does-step fails AreLaidOut failure (add_readyz_check (codes "readyz")) _ _ _
          (tt, (tt, good))
          (Does-attempt fails AreLaidOut failure start _ (tt, (tt, (tt, good)))
            (tt, (tt, (tt, good)))))

  pub serve-Does :
      (s : State)
      → s.arrays ≡ (for_metrics grow flags h).1
      → All IsEarly s.steps
      → Does fails AreLaidOut
          (serve grow fails flags
            (watched (has_webhook flags) (webhook_watcher flags), (for_webhook grow flags h).0)
            (watched (has_metrics flags) (metrics_watcher flags), (for_metrics grow flags h).0)
            s)
          s.steps
          (serving flags (options_at grow flags h))
          (λ u s'. AreLaidOut s')
  unfolding serve setup_controller setup_webhook ending
  serve-Does s mem e =
      let good = early s.arrays s.steps e in
      let made : AreLaidOut (
          behind fails AreLaidOut (new_manager (options_at grow flags h))
            (behind fails AreLaidOut get_config s)) =
        ((refl, mem), (tt, good)) in
      Does-step fails AreLaidOut failure get_config _ s _ (tt, good)
        (Does-step fails AreLaidOut failure (new_manager (options_at grow flags h)) _ _ _ made (
          Does-step fails AreLaidOut failure
            (complete_controller (codes "VaultUnsealer") (codes "vaultunsealer")) _ _ _ (tt, made)
            (Does-step fails AreLaidOut failure (complete_webhook (codes "VaultUnsealer")) _ _ _
              (tt, (tt, made))
              (Does-bind fails AreLaidOut _ _ _ _ _
                (add_if-Does (has_metrics flags) (metrics_watcher flags) _ (tt, (tt, made)))
                λ u s' good'.
                  Does-bind fails AreLaidOut _ _ _ _ _
                    (add_if-Does (has_webhook flags) (webhook_watcher flags) s' good')
                    λ u' s'' good''. ending-Does s'' good''))))
