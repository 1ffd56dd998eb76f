-- ===== src/Entry/Main/Layout.antt =====
-- The steps of main as a list with the end that the failure of each leads to, and the slices that its
-- servers are given.
use vault_unsealer.Prelude.{ℕ, Bool, true, false, not, [], ◌∷◌, ◌++◌}
use vault_unsealer.Text.{codes, is_empty}
use vault_unsealer.Entry.Slices.{Slice, Arrays, nil_slice, append}
use vault_unsealer.Entry.Boot.{
  Watcher, TlsOption, disable_http2, certificates_of, ManagerOptions, clientgo, v1alpha1,
  add_to_scheme, new_cert_watcher, get_config, new_manager, complete_controller, complete_webhook,
  add_watcher, add_healthz_check, add_readyz_check, start, panicked,
}
use vault_unsealer.Entry.Boot.Triples.{Plan}
use vault_unsealer.Entry.Main.{Flags, webhook_watcher, metrics_watcher, manager_options, failure}

-- Whether a certificate directory is given.
abbrev pub has_webhook : Flags → Bool
has_webhook flags = not (is_empty flags.webhook_cert_path)

abbrev pub has_metrics : Flags → Bool
has_metrics flags = not (is_empty flags.metrics_cert_path)

abbrev pub watch : Bool → Watcher → Plan
watch true w = (new_cert_watcher w, failure) ∷ []
watch false w = []

abbrev pub add : Bool → Watcher → Plan
add true w = (add_watcher w, failure) ∷ []
add false w = []

abbrev pub serving : Flags → ManagerOptions → Plan
serving flags options =
    (get_config, failure)
    ∷ (new_manager options, failure)
    ∷ (complete_controller (codes "VaultUnsealer") (codes "vaultunsealer"), failure)
    ∷ (complete_webhook (codes "VaultUnsealer"), failure)
    ∷ (add (has_metrics flags) (metrics_watcher flags)
        ++ (add (has_webhook flags) (webhook_watcher flags)
            ++ ((add_healthz_check (codes "healthz"), failure)
                ∷ (add_readyz_check (codes "readyz"), failure)
                ∷ (start, failure)
                ∷ [])))

-- All steps, with the options of the manager.
abbrev pub plan : Flags → ManagerOptions → Plan
plan flags options =
    (add_to_scheme clientgo, panicked)
    ∷ (add_to_scheme v1alpha1, panicked)
    ∷ (watch (has_webhook flags) (webhook_watcher flags)
        ++ (watch (has_metrics flags) (metrics_watcher flags) ++ serving flags options))

-- A slice and the memory.
abbrev pub Memory : Type 0
Memory = Slice × Arrays TlsOption

module _ (grow : ℕ → ℕ) where
  -- one more option, if it is wanted
  abbrev pub extended : Bool → TlsOption → Slice → Arrays TlsOption → Memory
  extended true option tls h = append grow tls option h
  extended false option tls h = (tls, h)

  abbrev pub shared : Flags → Arrays TlsOption → Memory
  shared flags h = extended (not flags.enable_http2) disable_http2 nil_slice h

  abbrev pub for_webhook : Flags → Arrays TlsOption → Memory
  for_webhook flags h =
      let (tls, h') = shared flags h in
      extended (has_webhook flags) (certificates_of (webhook_watcher flags)) tls h'

  abbrev pub for_metrics : Flags → Arrays TlsOption → Memory
  for_metrics flags h =
      extended (has_metrics flags) (certificates_of (metrics_watcher flags)) (shared flags h).0
        (for_webhook flags h).1

  abbrev pub options_at : Flags → Arrays TlsOption → ManagerOptions
  options_at flags h = manager_options flags (for_webhook flags h).0 (for_metrics flags h).0
