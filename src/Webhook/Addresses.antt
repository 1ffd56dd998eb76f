-- ===== src/Webhook/Addresses.antt =====
-- The addresses of the pods' Vaults for an object that was admitted: createVaultClient against
-- validateVaultConnection.
use mathlib.Core.List.{map}
use vault_unsealer.Prelude.{
  ◌+◌, ◌≡◌, ◌≢◌, refl, sym, ap, subst, ◌∙◌, ◌⊎◌, inl, inr, ◌&&◌, true, false, Bool-cases, ℕ, [],
  ◌∷◌, ◌++◌, none, leb, if◌then◌else◌, arith,
}
use vault_unsealer.Text.{Text, codes, has_prefix}
use vault_unsealer.Text.Replace.{Lacks, replace_once, replace_once-append}
use vault_unsealer.Result.{Result, ok, err}
use vault_unsealer.Api.{VaultUnsealer}
use vault_unsealer.Cluster.{Env, Trace, Pod, ApiConfig}
use vault_unsealer.Controller.Connection.{vault_url, create_vault_client}
use vault_unsealer.Controller.Connection.Calls.{address-create_vault_client}
use vault_unsealer.Webhook.Spec.{ParsedUrl, validate_create}
use vault_unsealer.Webhook.Spec.Laws.{IsWebUrl, admission_iff}

-- an ASCII letter in lower case
abbrev pub to_lower : ℕ → ℕ
to_lower c = if leb b'A' c && leb c b'Z' then c + 32 else c

-- The documented form of what url.Parse gives: the scheme, if there is one, stands before the first
-- colon, and is told in lower case.
pub record UrlLaws (parse : Text → Result ParsedUrl) : Type 0 where
  pub scheme :
      (url : Text) (u : ParsedUrl)
      → parse url ≡ ok u
      → u.scheme ≢ []
      → (written rest : Text) × (url ≡ written ++ b':' ∷ rest) × (map to_lower written ≡ u.scheme)

Lacks-to_lower : (s : Text) → Lacks b'v' (map to_lower s) → Lacks b'v' s
Lacks-to_lower [] h = tt
Lacks-to_lower (c ∷ s) h = (λ e. h.0 (subst (λ x. b'v' ≡ to_lower x) e refl), Lacks-to_lower s h.1)

-- Whether a scheme begins with "http" in lower case does not depend on what follows it.
has_prefix-scheme :
    (w s : Text)
    → (map to_lower w ≡ codes "http") ⊎ (map to_lower w ≡ codes "https")
    → has_prefix (codes "http") (w ++ s) ≡ has_prefix (codes "http") w
unfolding has_prefix
has_prefix-scheme (a ∷ b ∷ c ∷ d ∷ w) s h = refl
has_prefix-scheme [] s (inl e) = cc
has_prefix-scheme [] s (inr e) = cc
has_prefix-scheme (a ∷ []) s (inl e) = cc
has_prefix-scheme (a ∷ []) s (inr e) = cc
has_prefix-scheme (a ∷ b ∷ []) s (inl e) = cc
has_prefix-scheme (a ∷ b ∷ []) s (inr e) = cc
has_prefix-scheme (a ∷ b ∷ c ∷ []) s (inl e) = cc
has_prefix-scheme (a ∷ b ∷ c ∷ []) s (inr e) = cc

-- Where the scheme goes: it stays as it is written if it begins with "http" in lower case, and
-- otherwise the address is plain HTTP to port 8200 of the pod.
abbrev pub Addressed : (url pod_ip address : Text) → Type 0
Addressed url pod_ip address =
    (written rest : Text) × (url ≡ written ++ b':' ∷ rest)
    × ((map to_lower written ≡ codes "http") ⊎ (map to_lower written ≡ codes "https"))
    × (((has_prefix (codes "http") written ≡ true)
          × ((rest' : Text) × (address ≡ written ++ b':' ∷ rest')))
        ⊎ ((has_prefix (codes "http") written ≡ false)
            × (address ≡ codes "http://" ++ (pod_ip ++ codes ":8200"))))

-- A scheme and its colon stay when the name of a service is replaced.
replace_once-scheme :
    (old new written rest : Text)
    → Lacks b'v' written
    → replace_once (b'v' ∷ old) new (written ++ b':' ∷ rest)
      ≡ written ++ b':' ∷ replace_once (b'v' ∷ old) new rest
replace_once-scheme old new written rest lacks =
    replace_once-append b'v' old new written (b':' ∷ rest) lacks
    ∙ ap (λ s. written ++ s)
        (replace_once-append b'v' old new (b':' ∷ []) rest (λ e. omega arith, tt))

Lacks-scheme :
    (written : Text)
    → (map to_lower written ≡ codes "http") ⊎ (map to_lower written ≡ codes "https")
    → Lacks b'v' written
Lacks-scheme written which = Lacks-to_lower written (elim which [
  | inl e ↦ subst (Lacks b'v') (sym e) Lacks-http
  | inr e ↦ subst (Lacks b'v') (sym e) Lacks-https
])
  where
    Lacks-http : Lacks b'v' (codes "http")
    Lacks-http = (λ e. omega arith, (λ e. omega arith, (λ e. omega arith, (λ e. omega arith, tt))))

    Lacks-https : Lacks b'v' (codes "https")
    Lacks-https = (
      λ e. omega arith,
      (λ e. omega arith, (λ e. omega arith, (λ e. omega arith, (λ e. omega arith, tt)))),
    )

vault_url-scheme :
    (written rest pod_ip : Text)
    → (map to_lower written ≡ codes "http") ⊎ (map to_lower written ≡ codes "https")
    → Addressed (written ++ b':' ∷ rest) pod_ip (vault_url pod_ip (written ++ b':' ∷ rest))
unfolding vault_url
vault_url-scheme written rest pod_ip which =
    let lacks = Lacks-scheme written which in
    let once = replace_once (codes "vault.vault.svc") pod_ip rest in
    let twice = written ++ b':' ∷ replace_once (codes "vault") pod_ip once in
    let same =
      ap (replace_once (codes "vault") pod_ip)
        (replace_once-scheme (codes "ault.vault.svc") pod_ip written rest lacks)
      ∙ replace_once-scheme (codes "ault") pod_ip written once lacks in
    let begins =
      has_prefix-scheme written (b':' ∷ replace_once (codes "vault") pod_ip once) which in
    (
      written,
      rest,
      refl,
      which,
      elim (Bool-cases (has_prefix (codes "http") written)) [
        | inl y ↦ inl (y, (replace_once (codes "vault") pod_ip once, rw (same, begins, y) refl))
        | inr n ↦ inr (n, rw (same, begins, n) refl)
      ],
    )

scheme_given :
    (u : ParsedUrl) → (u.scheme ≡ codes "http") ⊎ (u.scheme ≡ codes "https") → u.scheme ≢ []
scheme_given u (inl e) h = cc
scheme_given u (inr e) h = cc

web_scheme :
    (r : Result ParsedUrl)
    → IsWebUrl r
    → (u : ParsedUrl) × (r ≡ ok u) × ((u.scheme ≡ codes "http") ⊎ (u.scheme ≡ codes "https"))
web_scheme (err e) h = absurd h
web_scheme (ok u) h = (u, refl, h.0)

vault_url-Addressed :
    (parse : Text → Result ParsedUrl) (vu : VaultUnsealer) (pod_ip : Text)
    → UrlLaws parse
    → (validate_create parse vu).refusal ≡ none
    → Addressed vu.spec.vault.url pod_ip (vault_url pod_ip vu.spec.vault.url)
vault_url-Addressed parse vu pod_ip laws admitted =
    let usable = (admission_iff parse vu vu).0.0 admitted in
    let (u, parsed, web) = web_scheme (parse vu.spec.vault.url) usable.url in
    let (written, rest, e, lower) = laws.scheme vu.spec.vault.url u parsed (scheme_given u web) in
    let which : (map to_lower written ≡ codes "http") ⊎ (map to_lower written ≡ codes "https") =
      elim web [ inl h ↦ inl (lower ∙ h) | inr h ↦ inr (lower ∙ h) ] in
    subst (λ url. Addressed url pod_ip (vault_url pod_ip url)) (sym e)
      (vault_url-scheme written rest pod_ip which)

-- If the scheme of a parsed URL is what stands before its first colon, in lower case, then the URL of
-- an object that is admitted begins with "http" or "https" in letters of either case and a colon. A
-- client that is made for a pod then has an address that begins with the same scheme, as it is
-- written, if its first four letters are small; if they are not, the URL is not used, and the address
-- is plain HTTP to port 8200 of the pod.
pub create_vault_client-Addressed :
    (parse : Text → Result ParsedUrl) (env : Env) (pod : Pod) (vu : VaultUnsealer) (t : Trace)
    (client : ApiConfig)
    → UrlLaws parse
    → (validate_create parse vu).refusal ≡ none
    → (create_vault_client env pod vu t).0 ≡ ok client
    → Addressed vu.spec.vault.url pod.pod_ip client.address
create_vault_client-Addressed parse env pod vu t client laws admitted made =
    subst (Addressed vu.spec.vault.url pod.pod_ip)
      (sym (address-create_vault_client env pod vu t client made))
      (vault_url-Addressed parse vu pod.pod_ip laws admitted)
