-- ===== src/Tests/Connections.antt =====
-- Addresses and TLS settings.
use vault_unsealer.Prelude.{◌≡◌, refl, [], ◌++◌, true, some, arith}
use vault_unsealer.Text.{codes, text_eq}
use vault_unsealer.Text.Replace.{Lacks}
use vault_unsealer.Api.{SecretRef, VaultUnsealer}
use vault_unsealer.Cluster.{Env, ◌>>=◌, root_cas}
use vault_unsealer.Controller.Connection.{vault_url, choose_tls}
use vault_unsealer.Controller.Connection.Laws.{
  SettingsFor, vault_url_service, choose_tls-SettingsFor,
}
use vault_unsealer.Tests.World.{world, unsealer, secret_lines}

no_v : Lacks b'v' (codes "://")
no_v = grind arith

no_v_behind : Lacks b'v' (codes ".cluster.local:8200")
no_v_behind = grind arith

no_v_ip : Lacks b'v' (codes "10.0.0.1")
no_v_ip = grind arith

-- The cluster's domain stays behind the pod's IP.
vault_url_service_example :
    vault_url
      (codes "10.0.0.1")
      (codes "http" ++ (codes "://" ++ (codes "vault.vault.svc" ++ codes ".cluster.local:8200")))
    ≡ codes "http" ++ (codes "://" ++ (codes "10.0.0.1" ++ codes ".cluster.local:8200"))
vault_url_service_example =
    vault_url_service (codes "://") (codes ".cluster.local:8200") (codes "10.0.0.1") no_v
      no_v_behind no_v_ip

-- The same object with a CA bundle, which is not in its namespace.
abbrev ca_ref : SecretRef
ca_ref = record { name = codes "vault-ca"; namespace = codes "pki"; key = codes "keys" }

abbrev with_ca : VaultUnsealer
with_ca = record unsealer {
  spec = record (unsealer.spec) {
    vault = record (unsealer.spec.vault) { ca_bundle_secret_ref = some ca_ref };
  };
}

abbrev trusting : Env
trusting = record (world with_ca) { append_certs_from_pem = λ pem. true }

choose_tls-SettingsFor_example :
    SettingsFor trusting with_ca [] (some ca_ref) (choose_tls trusting with_ca []).0
choose_tls-SettingsFor_example = choose_tls-SettingsFor trusting with_ca []

bundle_used : (choose_tls trusting with_ca []).0 ≡ some (root_cas secret_lines)
unfolding choose_tls text_eq ◌>>=◌
bundle_used = refl
