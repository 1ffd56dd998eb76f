-- ===== src/Entry/Main/Order.antt =====
-- The steps of main, in order, up to the first that fails.
use vault_unsealer.Prelude.{ℕ, ◌≡◌, refl, sym, ap₂, subst, Bool, not, List, [], ◌++◌, Option, All}
use vault_unsealer.Entry.Slices.{Slice, Arrays}
use vault_unsealer.Entry.Boot.{
  Watcher, TlsOption, certificates_of, Step, add_to_scheme, clientgo, v1alpha1, panicked, Outcome,
  go, stop, State, ◌>>=◌,
}
use vault_unsealer.Entry.Boot.Triples.{executed, Does, Does-bind, Does-step}
use vault_unsealer.Entry.Main.{
  Flags, webhook_watcher, metrics_watcher, append_option, tls_opts, webhook_tls, metrics_tls, serve,
  main,
}
use vault_unsealer.Entry.Main.Layout.{
  has_webhook, has_metrics, watch, serving, plan, extended, shared, for_webhook, for_metrics,
  options_at,
}
use vault_unsealer.Entry.Main.Stages.{
  IsEarly, AreLaidOut, early, Before, BeforeWith, tls_opts-Does, watched, watching-Does, serve-Does,
}

module _ (grow : ℕ → ℕ) (fails : List Step → Step → Bool) (flags : Flags)
    (h : Arrays TlsOption) where
  -- what the webhook and the metrics server get
  abbrev of_webhook : Option Watcher × Slice
  of_webhook = (
    watched grow fails flags h (has_webhook flags) (webhook_watcher flags),
    (for_webhook grow flags h).0,
  )

  abbrev of_metrics : Option Watcher × Slice
  of_metrics = (
    watched grow fails flags h (has_metrics flags) (metrics_watcher flags),
    (for_metrics grow flags h).0,
  )

  serve-Does_with :
      (metrics : Option Watcher × Slice) (s : State)
      → BeforeWith grow fails flags h
          (watched grow fails flags h (has_metrics flags) (metrics_watcher flags))
          (for_metrics grow flags h)
          metrics
          s
      → Does fails
          (AreLaidOut grow fails flags h)
          (serve grow fails flags of_webhook metrics s)
          s.steps
          (serving flags (options_at grow flags h))
          (λ u s'. AreLaidOut grow fails flags h s')
  serve-Does_with (w, tls) s (same_w, (same_tls, mem, e)) =
      subst
        (λ (r : Option Watcher × Slice).
          Does fails (AreLaidOut grow fails flags h) (serve grow fails flags of_webhook r s) s.steps
            (serving flags (options_at grow flags h)) (λ u s'. AreLaidOut grow fails flags h s'))
        (ap₂ (λ a b. (a, b)) (sym same_w) (sym same_tls)) (serve-Does grow fails flags h s mem e)

  with_webhook-Does :
      (webhook : Option Watcher × Slice) (s : State)
      → BeforeWith grow fails flags h
          (watched grow fails flags h (has_webhook flags) (webhook_watcher flags))
          (for_webhook grow flags h)
          webhook
          s
      → Does fails
          (AreLaidOut grow fails flags h)
          ((metrics_tls grow fails flags (shared grow flags h).0 >>= λ metrics.
              serve grow fails flags webhook metrics)
            s)
          s.steps
          (watch (has_metrics flags) (metrics_watcher flags)
            ++ serving flags (options_at grow flags h))
          (λ u s'. AreLaidOut grow fails flags h s')
  unfolding metrics_tls append_option
  with_webhook-Does (w, tls) s (same_w, (same_tls, mem, e)) =
      subst
        (λ (r : Option Watcher × Slice).
          Does fails (AreLaidOut grow fails flags h)
            ((metrics_tls grow fails flags (shared grow flags h).0 >>= λ metrics.
                serve grow fails flags r metrics)
              s)
            s.steps
            (watch (has_metrics flags) (metrics_watcher flags)
              ++ serving flags (options_at grow flags h))
            (λ u s'. AreLaidOut grow fails flags h s'))
        (ap₂ (λ a b. (a, b)) (sym same_w) (sym same_tls))
        (Does-bind fails (AreLaidOut grow fails flags h) _ _ s _ _
          (watching-Does grow fails flags h (has_metrics flags) (metrics_watcher flags)
            (shared grow flags h).0 s e)
          λ metrics s' mid. serve-Does_with metrics s' (
            subst
              (λ (a : Arrays TlsOption).
                BeforeWith grow fails flags h
                  (watched grow fails flags h (has_metrics flags) (metrics_watcher flags))
                  (extended grow (has_metrics flags) (certificates_of (metrics_watcher flags))
                    (shared grow flags h).0 a)
                  metrics s')
              mem mid))

  with_tls-Does :
      (tls : Slice) (s : State)
      → Before grow fails flags h (shared grow flags h) tls s
      → Does fails
          (AreLaidOut grow fails flags h)
          ((webhook_tls grow fails flags tls >>= λ webhook.
              metrics_tls grow fails flags tls >>= λ metrics.
              serve grow fails flags webhook metrics)
            s)
          s.steps
          (watch (has_webhook flags) (webhook_watcher flags)
            ++ (watch (has_metrics flags) (metrics_watcher flags)
                ++ serving flags (options_at grow flags h)))
          (λ u s'. AreLaidOut grow fails flags h s')
  unfolding webhook_tls append_option
  with_tls-Does tls s (same_tls, mem, e) =
      subst
        (λ (t : Slice).
          Does fails (AreLaidOut grow fails flags h)
            ((webhook_tls grow fails flags t >>= λ webhook.
                metrics_tls grow fails flags t >>= λ metrics.
                serve grow fails flags webhook metrics)
              s)
            s.steps
            (watch (has_webhook flags) (webhook_watcher flags)
              ++ (watch (has_metrics flags) (metrics_watcher flags)
                  ++ serving flags (options_at grow flags h)))
            (λ u s'. AreLaidOut grow fails flags h s'))
        (sym same_tls)
        (Does-bind fails (AreLaidOut grow fails flags h) _ _ s _ _
          (watching-Does grow fails flags h (has_webhook flags) (webhook_watcher flags)
            (shared grow flags h).0 s e)
          λ webhook s' mid. with_webhook-Does webhook s' (
            subst
              (λ (a : Arrays TlsOption).
                BeforeWith grow fails flags h
                  (watched grow fails flags h (has_webhook flags) (webhook_watcher flags))
                  (extended grow (has_webhook flags) (certificates_of (webhook_watcher flags))
                    (shared grow flags h).0 a)
                  webhook s')
              mem mid))

  pub main-Does :
      (s : State)
      → s.arrays ≡ h
      → All IsEarly s.steps
      → Does fails
          (AreLaidOut grow fails flags h)
          (main grow fails flags s)
          s.steps
          (plan flags (options_at grow flags h))
          (λ u s'. AreLaidOut grow fails flags h s')
  unfolding main tls_opts
  main-Does s same e =
      Does-step fails (AreLaidOut grow fails flags h) panicked (add_to_scheme clientgo) _ s _
        (tt, early grow fails flags h _ s.steps e)
        (Does-step fails (AreLaidOut grow fails flags h) panicked (add_to_scheme v1alpha1) _ _ _
          (tt, (tt, early grow fails flags h _ s.steps e))
          (Does-bind fails (AreLaidOut grow fails flags h) _ _ _ [] _
            (tls_opts-Does grow fails flags h (not flags.enable_http2) _ same (tt, (tt, e)))
            λ tls s' mid. with_tls-Does tls s' mid))

-- A process that has made no step.
abbrev pub started : Arrays TlsOption → State
started h = record { steps = []; arrays = h }

module _ (grow : ℕ → ℕ) (fails : List Step → Step → Bool) (flags : Flags)
    (h : Arrays TlsOption) where
  -- main makes the steps of the plan, in its order, up to the first that fails.
  pub main-plan :
      ((main grow fails flags (started h)).0, (main grow fails flags (started h)).1.steps)
      ≡ executed fails [] (plan flags (options_at grow flags h))
  main-plan =
      by_outcome (main grow fails flags (started h))
        (main-Does grow fails flags h (started h) refl tt)
    where
      by_outcome :
          (r : Outcome (Unit {0}) × State)
          → Does fails
              (AreLaidOut grow fails flags h)
              r
              []
              (plan flags (options_at grow flags h))
              (λ u s'. AreLaidOut grow fails flags h s')
          → (r.0, r.1.steps) ≡ executed fails [] (plan flags (options_at grow flags h))
      by_outcome (go u, s) d = sym d.at.0
      by_outcome (stop e, s) d = sym d.at.0

  pub main-AreLaidOut : AreLaidOut grow fails flags h (main grow fails flags (started h)).1
  main-AreLaidOut =
      by_outcome (main grow fails flags (started h))
        (main-Does grow fails flags h (started h) refl tt)
    where
      by_outcome :
          (r : Outcome (Unit {0}) × State)
          → Does fails
              (AreLaidOut grow fails flags h)
              r
              []
              (plan flags (options_at grow flags h))
              (λ u s'. AreLaidOut grow fails flags h s')
          → AreLaidOut grow fails flags h r.1
      by_outcome (go u, s) d = d.at.1
      by_outcome (stop e, s) d = d.at.1
