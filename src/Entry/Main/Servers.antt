-- ===== src/Entry/Main/Servers.antt =====
-- The TLS options of the two servers, read out of the slices when the process has gone as far as it can.
use vault_unsealer.Prelude.{
  ℕ, ◌≡◌, refl, Bool, true, false, not, List, [], ◌∷◌, ◌++◌, Option, some, All,
}
use vault_unsealer.Entry.Slices.{Arrays, contents, append, no_arrays}
use vault_unsealer.Entry.Boot.{
  Watcher, TlsOption, disable_http2, certificates_of, Step, new_manager,
}
use vault_unsealer.Entry.Main.{Flags, webhook_watcher, metrics_watcher, main}
use vault_unsealer.Entry.Main.Layout.{has_webhook, has_metrics, for_webhook, for_metrics}
use vault_unsealer.Entry.Main.Stages.{IsLaidOut}
use vault_unsealer.Entry.Main.Order.{started, main-AreLaidOut}

abbrev if_wanted : Bool → TlsOption → List (Option TlsOption)
if_wanted true option = some option ∷ []
if_wanted false option = []

-- The options of a server: HTTP/2 off unless it is enabled, and its own certificates if it has any.
abbrev pub own : Flags → Bool → Watcher → List (Option TlsOption)
own flags has w =
    if_wanted (not flags.enable_http2) disable_http2 ++ if_wanted has (certificates_of w)

-- A step that makes the manager gives each server its own options.
abbrev pub IsServed : Flags → Arrays TlsOption → Step → Type 0
IsServed flags arrays (new_manager options) =
    (contents arrays options.webhook_tls_opts
      ≡ own flags (has_webhook flags) (webhook_watcher flags))
    × (contents arrays options.metrics.tls_opts
        ≡ own flags (has_metrics flags) (metrics_watcher flags))
IsServed flags arrays step = Unit

module _ (grow : ℕ → ℕ) (tight : grow 1 ≡ 1) (fails : List Step → Step → Bool) (flags : Flags) where
  both-own :
      (http webhook metrics : Bool)
      → not flags.enable_http2 ≡ http
      → has_webhook flags ≡ webhook
      → has_metrics flags ≡ metrics
      → (contents (for_metrics grow flags no_arrays).1 (for_webhook grow flags no_arrays).0
          ≡ own flags (has_webhook flags) (webhook_watcher flags))
        × (contents (for_metrics grow flags no_arrays).1 (for_metrics grow flags no_arrays).0
            ≡ own flags (has_metrics flags) (metrics_watcher flags))
  unfolding append
  both-own true true true h w m = rw (h, w, m, tight) (refl, refl)
  both-own true true false h w m = rw (h, w, m, tight) (refl, refl)
  both-own true false true h w m = rw (h, w, m, tight) (refl, refl)
  both-own true false false h w m = rw (h, w, m) (refl, refl)
  both-own false true true h w m = rw (h, w, m) (refl, refl)
  both-own false true false h w m = rw (h, w, m) (refl, refl)
  both-own false false true h w m = rw (h, w, m) (refl, refl)
  both-own false false false h w m = rw (h, w, m) (refl, refl)

  served :
      (arrays : Arrays TlsOption) (steps : List Step)
      → All (IsLaidOut grow fails flags no_arrays arrays) steps
      → All (IsServed flags arrays) steps
  served arrays [] laid_out = tt
  served arrays (new_manager options ∷ steps) ((same, memory), laid_out) =
      let (webhook, metrics) =
        both-own (not flags.enable_http2) (has_webhook flags) (has_metrics flags) refl refl refl in
      (rw (same, memory) (webhook, metrics), served arrays steps laid_out)
  served arrays (step ∷ steps) laid_out = (tt, served arrays steps laid_out.1)

  -- If `append` makes an array for one element with room for one, then, whichever flags are given and
  -- whichever steps fail, the manager that main makes is given, for the webhook server, the option that
  -- disables HTTP/2 unless it is enabled and the webhook certificates if their directory is given, and
  -- for the metrics server, the same with the metrics certificates: no server is left with the
  -- certificates of the other, although their slices start from the same one. This is read out of the
  -- arrays as main leaves them.
  pub main-AreServed :
      All
        (IsServed flags (main grow fails flags (started no_arrays)).1.arrays)
        (main grow fails flags (started no_arrays)).1.steps
  main-AreServed =
      served (main grow fails flags (started no_arrays)).1.arrays
        (main grow fails flags (started no_arrays)).1.steps
        (main-AreLaidOut grow fails flags no_arrays)
