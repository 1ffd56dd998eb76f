-- ===== src/Entry/Main.antt =====
-- main of cmd/main.go. The flags are those that package flag has parsed; logging is left out.
pub mod Ended
pub mod Layout
pub mod Order
pub mod Servers
pub mod Stages
use vault_unsealer.Prelude.{
  ℕ, Bool, true, false, not, List, [], ◌∷◌, Option, none, some, if◌then◌else◌,
}
use vault_unsealer.Text.{Text, codes, is_empty}
use vault_unsealer.Api.Scheme.{unsealer, kind}
use vault_unsealer.Entry.Slices.{Slice, nil_slice, append, no_arrays}
use vault_unsealer.Entry.Boot.{
  Watcher, TlsOption, disable_http2, certificates_of, MetricsOptions, ManagerOptions, clientgo,
  v1alpha1, Step, add_to_scheme, new_cert_watcher, get_config, new_manager, complete_controller,
  complete_webhook, add_watcher, add_healthz_check, add_readyz_check, start, Exit, panicked, exited,
  State, Boot, pure, ◌>>=◌, ◌>>◌, attempt, Outcome,
}

pub record Flags : Type 0 where
  pub metrics_addr : Text
  pub metrics_cert_path : Text
  pub metrics_cert_name : Text
  pub metrics_cert_key : Text
  pub webhook_cert_path : Text
  pub webhook_cert_name : Text
  pub webhook_cert_key : Text
  pub enable_leader_election : Bool
  pub probe_addr : Text
  pub secure_metrics : Bool
  pub enable_http2 : Bool

-- the defaults of the flags
abbrev pub default_flags : Flags
default_flags = record {
  metrics_addr = codes "0";
  metrics_cert_path = [];
  metrics_cert_name = codes "tls.crt";
  metrics_cert_key = codes "tls.key";
  webhook_cert_path = [];
  webhook_cert_name = codes "tls.crt";
  webhook_cert_key = codes "tls.key";
  enable_leader_election = false;
  probe_addr = codes ":8081";
  secure_metrics = true;
  enable_http2 = false;
}

abbrev pub webhook_watcher : Flags → Watcher
webhook_watcher flags = record {
  directory = flags.webhook_cert_path;
  certificate = flags.webhook_cert_name;
  key = flags.webhook_cert_key;
}

abbrev pub metrics_watcher : Flags → Watcher
metrics_watcher flags = record {
  directory = flags.metrics_cert_path;
  certificate = flags.metrics_cert_name;
  key = flags.metrics_cert_key;
}

-- what `os.Exit(1)` does to the process
abbrev pub failure : Exit
failure = exited 1

abbrev pub manager_options : Flags → (webhook metrics : Slice) → ManagerOptions
manager_options flags webhook metrics = record {
  metrics = record {
    bind_address = flags.metrics_addr;
    secure_serving = flags.secure_metrics;
    tls_opts = metrics;
    filtered = flags.secure_metrics;
  };
  webhook_tls_opts = webhook;
  health_probe_bind_address = flags.probe_addr;
  leader_election = flags.enable_leader_election;
  leader_election_id = codes "1f47e4d3.autounseal.vault.io";
}

module _ (grow : ℕ → ℕ) (fails : List Step → Step → Bool) where
  pub append_option : Slice → TlsOption → Boot Slice
  unfolding append
  append_option tls option s =
      let (longer, arrays) = append grow tls option s.arrays in
      pure longer (record s { arrays = arrays })

  -- tlsOpts
  tls_opts : Flags → Boot Slice
  unfolding append_option
  tls_opts flags =
      if not flags.enable_http2 then append_option nil_slice disable_http2 else pure nil_slice

  -- webhookTLSOpts, and the watcher if there is one
  webhook_tls : Flags → Slice → Boot (Option Watcher × Slice)
  unfolding append_option
  webhook_tls flags tls =
      if not (is_empty flags.webhook_cert_path)
      then (do
        attempt fails failure (new_cert_watcher (webhook_watcher flags))
        longer ← append_option tls (certificates_of (webhook_watcher flags))
        pure (some (webhook_watcher flags), longer))
      else pure (none, tls)

  -- metricsServerOptions.TLSOpts, and the watcher if there is one
  metrics_tls : Flags → Slice → Boot (Option Watcher × Slice)
  unfolding append_option
  metrics_tls flags tls =
      if not (is_empty flags.metrics_cert_path)
      then (do
        attempt fails failure (new_cert_watcher (metrics_watcher flags))
        longer ← append_option tls (certificates_of (metrics_watcher flags))
        pure (some (metrics_watcher flags), longer))
      else pure (none, tls)

  add_if : Option Watcher → Boot (Unit {0})
  add_if none = pure tt
  add_if (some w) = attempt fails failure (add_watcher w)

  -- SetupWithManager of the reconciler and of the validator
  setup_controller : Boot (Unit {0})
  setup_controller =
      attempt fails failure (complete_controller (kind unsealer) (codes "vaultunsealer"))

  setup_webhook : Boot (Unit {0})
  setup_webhook = attempt fails failure (complete_webhook (kind unsealer))

  -- from the manager on
  pub serve : Flags → Option Watcher × Slice → Option Watcher × Slice → Boot (Unit {0})
  unfolding add_if setup_controller setup_webhook
  serve flags (webhook, webhook_slice) (metrics, metrics_slice) = do
    attempt fails failure get_config
    attempt fails failure (new_manager (manager_options flags webhook_slice metrics_slice))
    setup_controller
    setup_webhook
    add_if metrics
    add_if webhook
    attempt fails failure (add_healthz_check (codes "healthz"))
    attempt fails failure (add_readyz_check (codes "readyz"))
    attempt fails failure start

  -- the package's init, then main
  unfoldable pub main : Flags → Boot (Unit {0})
  unfolding tls_opts webhook_tls metrics_tls serve
  main flags = do
    attempt fails panicked (add_to_scheme clientgo)
    attempt fails panicked (add_to_scheme v1alpha1)
    tls ← tls_opts flags
    webhook ← webhook_tls flags tls
    metrics ← metrics_tls flags tls
    serve flags webhook metrics
