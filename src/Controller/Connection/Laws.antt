-- ===== src/Controller/Connection/Laws.antt =====
-- Which address and which TLS settings a pod's client gets.
use vault_unsealer.Prelude.{
  ◌≡◌, refl, ap, ◌∙◌, ◌⊎◌, inl, inr, Option, none, some, ◌++◌, All-append, true, false, Bool-cases,
  if◌then◌else◌,
}
use vault_unsealer.Text.{Text, codes, has_prefix}
use vault_unsealer.Text.Replace.{
  replace_once, replace_once_match, replace_once-Lacks, replace_once-append, Lacks,
}
use vault_unsealer.Result.{Result, ok, err}
use vault_unsealer.Api.{SecretRef, VaultUnsealer}
use vault_unsealer.Cluster.{Env, Trace, ◌>>=◌, SecretData, lookup, TlsConfig, skip_verify, root_cas}
use vault_unsealer.Secrets.Loader.{namespaced_name}
use vault_unsealer.Controller.Connection.{
  vault_url, dropping_error, read_tls, get_tls_config, tls_by, tls_of, pool_of, choose_tls,
}

-- In an address that is "http", a part without a 'v', "vault.vault.svc" and a rest without a 'v',
-- the service name becomes the pod's IP, if that has no 'v'; the rest stays as it is.
pub vault_url_service :
    (scheme behind pod_ip : Text)
    → Lacks b'v' scheme
    → Lacks b'v' behind
    → Lacks b'v' pod_ip
    → vault_url pod_ip (codes "http" ++ (scheme ++ (codes "vault.vault.svc" ++ behind)))
      ≡ codes "http" ++ (scheme ++ (pod_ip ++ behind))
unfolding vault_url
vault_url_service scheme behind pod_ip s b i = rw (
  inner,
  replace_once-Lacks b'v' (codes "ault") pod_ip (scheme ++ (pod_ip ++ behind))
      (All-append _ scheme (pod_ip ++ behind) s (All-append _ pod_ip behind i b)),
)
  where
    inner :
        replace_once
          (codes "vault.vault.svc")
          pod_ip
          (scheme ++ (codes "vault.vault.svc" ++ behind))
        ≡ scheme ++ (pod_ip ++ behind)
    inner =
        replace_once-append b'v' (codes "ault.vault.svc") pod_ip scheme
          (codes "vault.vault.svc" ++ behind) s
        ∙ ap (λ u. scheme ++ u) (replace_once_match b'v' (codes "ault.vault.svc") pod_ip behind)

-- An address without a 'v' that does not begin with "http" is not used: the pod's IP is, with plain
-- HTTP and port 8200.
vault_url_fallback :
    (url pod_ip : Text)
    → Lacks b'v' url
    → has_prefix (codes "http") url ≡ false
    → vault_url pod_ip url ≡ codes "http://" ++ (pod_ip ++ codes ":8200")
unfolding vault_url
vault_url_fallback url pod_ip l h = rw (
  replace_once-Lacks b'v' (codes "ault.vault.svc") pod_ip url l,
  replace_once-Lacks b'v' (codes "ault") pod_ip url l,
  h,
)

-- The PEM data that the CA secret of the reference holds under its key, when it is read behind `t`,
-- and that is accepted.
abbrev pub IsCaBundle : Env → VaultUnsealer → Trace → SecretRef → Text → Type 0
IsCaBundle env vu t ref pem =
    (data' : SecretData) × (env.get_secret t (namespaced_name vu.namespace ref) ≡ ok data')
    × (lookup ref.key data' ≡ some pem)
    × (env.append_certs_from_pem pem ≡ true)

-- What the TLS settings of a client are, by the specification and the answer for the CA secret.
abbrev pub SettingsFor : Env → VaultUnsealer → Trace → Option SecretRef → Option TlsConfig → Type 0
SettingsFor env vu t (some ref) tls =
    ((pem : Text) × IsCaBundle env vu t ref pem × (tls ≡ some (root_cas pem)))
    ⊎ (((pem : Text) → ¬ IsCaBundle env vu t ref pem) × (tls ≡ none))
SettingsFor env vu t none tls =
    tls ≡ (if vu.spec.vault.insecure_skip_verify then some skip_verify else none)

module _ (env : Env) (vu : VaultUnsealer) (t : Trace) (ref : SecretRef) where
  pool_of-SettingsFor :
      (data' : SecretData) (found : Option Text)
      → env.get_secret t (namespaced_name vu.namespace ref) ≡ ok data'
      → lookup ref.key data' ≡ found
      → SettingsFor env vu t (some ref) (dropping_error env (pool_of env found ref))
  unfolding pool_of dropping_error
  pool_of-SettingsFor data' none read held = inr (λ pem (d, r, l, y). cc, refl)
  pool_of-SettingsFor data' (some pem) read held =
      elim (Bool-cases (env.append_certs_from_pem pem)) [
        | inl y ↦ rw y (inl (pem, (data', read, held, y), refl))
        | inr n ↦ rw n (inr (λ pem' (d, r, l, y). cc, refl))
      ]

  tls_of-SettingsFor :
      (found : Result SecretData)
      → env.get_secret t (namespaced_name vu.namespace ref) ≡ found
      → SettingsFor env vu t (some ref) (dropping_error env (tls_of env ref found))
  unfolding tls_of dropping_error
  tls_of-SettingsFor (err e) read = inr (λ pem (d, r, l, y). cc, refl)
  tls_of-SettingsFor (ok found) read = pool_of-SettingsFor found (lookup ref.key found) read refl

module _ (env : Env) (vu : VaultUnsealer) where
  read_tls-SettingsFor :
      (ref : SecretRef) (t : Trace)
      → SettingsFor env vu t (some ref) (dropping_error env (read_tls env vu (some ref) t).0)
  unfolding read_tls ◌>>=◌ namespaced_name
  read_tls-SettingsFor ref t = tls_of-SettingsFor env vu t ref _ refl

  tls_by-SettingsFor :
      (found : Option SecretRef) (t : Trace)
      → vu.spec.vault.ca_bundle_secret_ref ≡ found
      → SettingsFor env vu t found (tls_by env vu found t).0
  unfolding tls_by ◌>>=◌
  tls_by-SettingsFor none t is = refl
  tls_by-SettingsFor (some ref) t is = unfold get_tls_config in rw is (read_tls-SettingsFor ref t)

  -- With a CA bundle reference, the settings of a client are the PEM data under the key of the secret
  -- that is referred to, in the namespace of the object if the reference has none, when that is read,
  -- found and accepted, and there are none otherwise; the field for skipping the check has no part in
  -- it. Without a reference the settings skip the check if the specification says so, and there are
  -- none otherwise.
  pub choose_tls-SettingsFor :
      (t : Trace) → SettingsFor env vu t vu.spec.vault.ca_bundle_secret_ref (choose_tls env vu t).0
  unfolding choose_tls
  choose_tls-SettingsFor t = tls_by-SettingsFor vu.spec.vault.ca_bundle_secret_ref t refl
