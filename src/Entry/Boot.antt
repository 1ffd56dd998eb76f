-- ===== src/Entry/Boot.antt =====
-- What main calls and does not implement, and programs that may end the process. A step is a call
-- that may fail; whether it does is a function of the steps before it.
pub mod Triples
use vault_unsealer.Prelude.{ℕ, Bool, List, [], ◌∷◌, if◌then◌else◌}
use vault_unsealer.Text.{Text}
use vault_unsealer.Api.Scheme.{Builder, scheme_builder}
use vault_unsealer.Entry.Slices.{Slice, Arrays}

-- certwatcher.New(filepath.Join(directory, certificate), filepath.Join(directory, key))
pub record Watcher : Type 0 where
  pub directory : Text
  pub certificate : Text
  pub key : Text

-- A func(*tls.Config): `c.NextProtos = []string{"http/1.1"}`, or `c.GetCertificate = w.GetCertificate`.
pub data TlsOption : Type 0 where
  disable_http2 : TlsOption
  certificates_of : Watcher → TlsOption

-- metricsserver.Options; `filtered` is FilterProvider = WithAuthenticationAndAuthorization
pub record MetricsOptions : Type 0 where
  pub bind_address : Text
  pub secure_serving : Bool
  pub tls_opts : Slice
  pub filtered : Bool

-- ctrl.Options; the webhook server by its TLS options
pub record ManagerOptions : Type 0 where
  pub metrics : MetricsOptions
  pub webhook_tls_opts : Slice
  pub health_probe_bind_address : Text
  pub leader_election : Bool
  pub leader_election_id : Text

-- whose AddToScheme is called: client-go's, or that of a builder
pub data Scheme : Type 0 where
  clientgo : Scheme
  built_by : Builder → Scheme

-- opsv1alpha1
abbrev pub v1alpha1 : Scheme
v1alpha1 = built_by scheme_builder

pub data Step : Type 0 where
  add_to_scheme : Scheme → Step
  new_cert_watcher : Watcher → Step
  get_config : Step
  new_manager : ManagerOptions → Step
  complete_controller : (kind name : Text) → Step
  complete_webhook : (kind : Text) → Step
  add_watcher : Watcher → Step
  add_healthz_check : (name : Text) → Step
  add_readyz_check : (name : Text) → Step
  start : Step

pub data Exit : Type 0 where
  panicked : Exit
  exited : ℕ → Exit

pub data Outcome {ℓ} (A : Type ℓ) : Type ℓ where
  go : A → Outcome A
  stop : Exit → Outcome A

-- the steps that were made, newest first, and the memory of the slices
pub record State : Type 0 where
  pub steps : List Step
  pub arrays : Arrays TlsOption

abbrev pub Boot {ℓ} : Type ℓ → Type ℓ
Boot A = State → Outcome A × State

unfoldable pub pure {ℓ} : {A : Type ℓ} → A → Boot A
pure a s = (go a, s)

bind_outcome {ℓ κ} :
    {A : Type ℓ} {B : Type κ} → Outcome A × State → (A → Boot B) → Outcome B × State
bind_outcome (go a, s) f = f a s
bind_outcome (stop e, s) f = (stop e, s)

infixl 5 ◌>>=◌ ◌>>◌
unfoldable pub ◌>>=◌ {ℓ κ} : {A : Type ℓ} {B : Type κ} → Boot A → (A → Boot B) → Boot B
unfolding bind_outcome pure
◌>>=◌ m f s = bind_outcome (m s) f

abbrev pub ◌>>◌ {ℓ κ} : {A : Type ℓ} {B : Type κ} → Boot A → Boot B → Boot B
m >> k = m >>= λ _. k

module _ (fails : List Step → Step → Bool) where
  -- the step, and `e` if it fails
  unfoldable pub attempt : Exit → Step → Boot (Unit {0})
  attempt e step s =
      let after = record s { steps = step ∷ s.steps } in
      if fails s.steps step then (stop e, after) else (go tt, after)
