-- ===== src/Controller/Pods/Submission.antt =====
-- How the keys are submitted to one Vault: in order, up to the first answer that ends the loop.
use vault_unsealer.Prelude.{
  ◌≡◌, refl, sym, ap, subst, inl, inr, Bool, true, false, List, [], ◌∷◌, ◌++◌, Bool-cases,
}
use vault_unsealer.Text.{Text}
use vault_unsealer.Result.{Result, ok, err}
use vault_unsealer.Cluster.{Env, Trace, pure, ◌>>=◌, ApiConfig, UnsealResponse, write_unseal}
use vault_unsealer.Vault.{unseal}
use vault_unsealer.Controller.Pods.{after_answer, submit_keys}

module _ (env : Env) (client : ApiConfig) where
  -- What Vault answers to a key.
  abbrev pub response : Text → Trace → Result UnsealResponse
  response key t = (unseal env client key t).0

  -- The history behind the submission of some keys.
  abbrev pub sent : List Text → Trace → Trace
  sent [] t = t
  sent (k ∷ ks) t = sent ks (write_unseal client k ∷ t)

  abbrev pub SaysSealed : Result UnsealResponse → Bool → Type 0
  SaysSealed (ok r) b = r.sealed ≡ b
  SaysSealed (err e) b = ⊥

  -- Every key is answered by "still sealed".
  abbrev pub AllSealed : List Text → Trace → Type 0
  AllSealed [] t = Unit
  AllSealed (k ∷ ks) t = SaysSealed (response k t) true × AllSealed ks (write_unseal client k ∷ t)

  abbrev LastSays : Result Bool → Result UnsealResponse → Type 0
  LastSays (ok b) r = SaysSealed r b
  LastSays (err e) r = r ≡ err e

  -- The keys up to one were answered by "still sealed", and that one gave the result.
  abbrev EndsAt : List Text → Trace → Trace → Result Bool → Type 0
  EndsAt keys t t' result =
      (tried : List Text) × (key : Text) × (rest : List Text) × (keys ≡ tried ++ key ∷ rest)
      × AllSealed tried t
      × LastSays result (response key (sent tried t))
      × (t' ≡ write_unseal client key ∷ sent tried t)

  abbrev pub Ends : List Text → Trace → Trace → Result Bool → Type 0
  Ends keys t t' (ok true) = AllSealed keys t × (t' ≡ sent keys t)
  Ends keys t t' (ok false) = EndsAt keys t t' (ok false)
  Ends keys t t' (err e) = EndsAt keys t t' (err e)

  Ends-cons :
      (key : Text) (keys : List Text) (t t' : Trace) (result : Result Bool)
      → SaysSealed (response key t) true
      → Ends keys (write_unseal client key ∷ t) t' result
      → Ends (key ∷ keys) t t' result
  Ends-cons key keys t t' (ok true) s (all, e) = ((s, all), e)
  Ends-cons key keys t t' (ok false) s (tried, k, rest, e, all, last, e') =
      (key ∷ tried, k, rest, ap (λ l. key ∷ l) e, (s, all), last, e')
  Ends-cons key keys t t' (err x) s (tried, k, rest, e, all, last, e') =
      (key ∷ tried, k, rest, ap (λ l. key ∷ l) e, (s, all), last, e')

  after_answer-Ends :
      (key : Text) (keys : List Text) (t : Trace) (r : Result UnsealResponse)
      → response key t ≡ r
      → (let p = submit_keys env client keys (write_unseal client key ∷ t) in
          Ends keys (write_unseal client key ∷ t) p.1 p.0)
      → (let p = after_answer r (submit_keys env client keys) (write_unseal client key ∷ t) in
          Ends (key ∷ keys) t p.1 p.0)
  unfolding after_answer pure
  after_answer-Ends key keys t (err e) said ih = ([], key, keys, refl, tt, said, refl)
  after_answer-Ends key keys t (ok r) said ih = elim (Bool-cases r.sealed) [
    | inl still ↦
        rw (still, after_answer)
          (Ends-cons key keys t _ _ (subst (λ x. SaysSealed x true) (sym said) still) ih)
    | inr open' ↦
        rw (open', after_answer)
          ([], key, keys, refl, tt, subst (λ x. SaysSealed x false) (sym said) open', refl)
  ]

  -- The keys are submitted in order. The loop reports "sealed" when every key was answered so;
  -- "unsealed" or an error, when the last key that it submitted was.
  pub submit_keys-Ends :
      (keys : List Text) (t : Trace)
      → Ends keys t (submit_keys env client keys t).1 (submit_keys env client keys t).0
  unfolding submit_keys ◌>>=◌ unseal
  submit_keys-Ends [] t = (tt, refl)
  submit_keys-Ends (key ∷ keys) t =
      after_answer-Ends key keys t (response key t) refl
        (submit_keys-Ends keys (write_unseal client key ∷ t))
