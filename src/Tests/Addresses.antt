-- ===== src/Tests/Addresses.antt =====
-- An object whose URL has its scheme in capital letters, and what is made of it.
use mathlib.Core.List.{map}
use vault_unsealer.Prelude.{
  ◌≡◌, refl, ap, inl, inr, Bool-cases, Option, none, some, [], ◌∷◌, ◌++◌, ◌==◌, ==_iff,
  if◌then◌else◌, ℕ,
}
use vault_unsealer.Text.{Text, codes, text_eq, has_prefix}
use vault_unsealer.Result.{Result, ok, err, new_error}
use vault_unsealer.Api.{VaultUnsealer}
use vault_unsealer.Cluster.{ApiConfig, http, skip_verify, ◌>>=◌}
use vault_unsealer.Webhook.Spec.{ParsedUrl, validate_create, validate_vault_unsealer}
use vault_unsealer.Webhook.Names.{
  is_valid_kubernetes_name, is_alphanumeric, is_valid_label_selector,
}
use vault_unsealer.Text.Runes.{runes}
use vault_unsealer.Vault.{new_client}
use vault_unsealer.Webhook.Addresses.{to_lower, UrlLaws, Addressed, create_vault_client-Addressed}
use vault_unsealer.Controller.Connection.{create_vault_client, choose_tls, vault_url}
use vault_unsealer.Tests.World.{world, unsealer, ready_pod}

prepend : ℕ → Option (Text × Text) → Option (Text × Text)
prepend c none = none
prepend c (some (w, r)) = some (c ∷ w, r)

-- What stands before the first colon and behind it.
cut : Text → Option (Text × Text)
cut [] = none
cut (c ∷ s) = let rest = cut s in if c == b':' then some ([], s) else prepend c rest

of_cut : Option (Text × Text) → Result ParsedUrl
of_cut none = err (new_error (codes "no scheme"))
of_cut (some (w, r)) = ok (record { scheme = map to_lower w; host = r })

parse : Text → Result ParsedUrl
unfolding cut of_cut
parse url = of_cut (cut url)

abbrev IsCut : Text → Option (Text × Text) → Type 0
IsCut s none = Unit
IsCut s (some (w, r)) = s ≡ w ++ b':' ∷ r

prepend-IsCut :
    (c : ℕ) (s : Text) (o : Option (Text × Text)) → IsCut s o → IsCut (c ∷ s) (prepend c o)
unfolding prepend
prepend-IsCut c s none h = tt
prepend-IsCut c s (some (w, r)) h = ap (λ l. c ∷ l) h

cut-IsCut : (s : Text) → IsCut s (cut s)
unfolding cut
cut-IsCut [] = tt
cut-IsCut (c ∷ s) = elim (Bool-cases (c == b':')) [
  | inl y ↦ rw (y, cut) (ap (λ x. x ∷ s) ((==_iff c b':').0 y))
  | inr n ↦ rw (n, cut) (prepend-IsCut c s (cut s) (cut-IsCut s))
]

parse-UrlLaws : UrlLaws parse
unfolding parse
parse-UrlLaws = record { scheme = λ url u e given. from (cut url) url u (cut-IsCut url) e }
  where
    from :
        (o : Option (Text × Text)) (url : Text) (u : ParsedUrl)
        → IsCut url o
        → of_cut o ≡ ok u
        → (written rest : Text) × (url ≡ written ++ b':' ∷ rest) × (map to_lower written ≡ u.scheme)
    from none url u h e = cc
    from (some (w, r)) url u h e = (w, r, h, scheme_of e)
      where
        scheme_of :
            ok (let it : ParsedUrl = record { scheme = map to_lower w; host = r } in it) ≡ ok u
            → map to_lower w ≡ u.scheme
        scheme_of same = cc

abbrev capital : VaultUnsealer
capital = record unsealer {
  spec = record (unsealer.spec) {
    vault = record (unsealer.spec.vault) { url = codes "HTTPS://vault.vault.svc:8200" };
  };
}

abbrev client : ApiConfig
client = record { address = codes "http://10.0.0.1:8200"; transport = http (some skip_verify) }

create_vault_client-Addressed_example :
    Addressed
      (codes "HTTPS://vault.vault.svc:8200")
      (codes "10.0.0.1")
      (codes "http://10.0.0.1:8200")
unfolding validate_create validate_vault_unsealer parse prepend text_eq is_valid_kubernetes_name
    is_alphanumeric runes is_valid_label_selector create_vault_client ◌>>=◌ new_client choose_tls
    vault_url has_prefix
create_vault_client-Addressed_example =
    create_vault_client-Addressed parse (world capital)
      (ready_pod (codes "vault-0") (codes "10.0.0.1")) capital [] client parse-UrlLaws refl refl
