-- ===== src/Controller/Pods/Partial.antt =====
-- A Vault that holds some shares already when it is found sealed.
use vault_unsealer.Prelude.{
  ℕ, suc, ◌<◌, ◌≤◌, ◌≡◌, refl, sym, ap, subst, ◌∙◌, Bool, true, false, List, [], ◌∷◌, ◌++◌,
  if◌then◌else◌, ltb, All, inl, inr, Bool-cases, arith, ◌||◌,
}
use vault_unsealer.Text.{Text, text_eq, text_eq_refl}
use vault_unsealer.Result.{ok}
use vault_unsealer.Api.{VaultUnsealer}
use vault_unsealer.Cluster.{
  Env, Trace, pure, ◌>>=◌, Pod, ApiConfig, SealStatus, UnsealResponse, write_unseal,
}
use vault_unsealer.Vault.{unseal}
use vault_unsealer.Controller.Pods.{after_answer, submit_keys, check_and_unseal_pod}
use vault_unsealer.Controller.Pods.Quorum.{submitted}
use vault_unsealer.Controller.Pods.Enough.{IsFoundSealed, asked, check_found}

unfoldable pub is_among : Text → List Text → Bool
is_among key [] = false
is_among key (k ∷ ks) = text_eq k key || is_among key ks

-- The number of different shares of a list.
unfoldable pub different : List Text → ℕ
different [] = 0
different (k ∷ ks) = let rest = different ks in if is_among k ks then rest else suc rest

-- The shares that are held when the keys have come in, one after the other, to those held before.
abbrev pub joined : List Text → List Text → List Text
joined [] held = held
joined (k ∷ ks) held = joined ks (k ∷ held)

-- From `start` on, where it holds the shares `held`, the Vault at the address behaves as documented:
-- as long as it receives shares alone it answers, it counts a repeated share once, and it says that
-- it is sealed while it holds less than `quorum` of them.
pub record OpensFrom (env : Env) (address : Text) (IsShare : Text → Type 0) (quorum : ℕ)
    (held : List Text) (start : Trace) : Type 0 where
  pub answers :
      (client : ApiConfig) (key : Text) (new : Trace)
      → client.address ≡ address
      → All IsShare (key ∷ submitted address new)
      → (r : UnsealResponse) × ((unseal env client key (new ++ start)).0 ≡ ok r)
        × (r.sealed ≡ ltb (different (key ∷ (submitted address new ++ held))) quorum)

different-joined : (keys held : List Text) → different held ≤ different (joined keys held)
unfolding different
different-joined [] held = omega arith
different-joined (k ∷ ks) held =
    let more = different-joined ks (k ∷ held) in
    elim (Bool-cases (is_among k held)) [
      | inl y ↦ ground (arith, more)
      | inr n ↦ ground (arith, more)
    ]

module _ (env : Env) (client : ApiConfig) (IsShare : Text → Type 0) (quorum : ℕ) (held : List Text)
    (start : Trace) (vault : OpensFrom env client.address IsShare quorum held start) where
  abbrev holds : Trace → List Text
  holds new = submitted client.address new ++ held

  holds-write : (key : Text) (new : Trace) → holds (write_unseal client key ∷ new) ≡ key ∷ holds new
  unfolding submitted
  holds-write key new = rw (text_eq_refl client.address) refl

  received_shares :
      (key : Text) (new : Trace)
      → IsShare key
      → All IsShare (submitted client.address new)
      → All IsShare (submitted client.address (write_unseal client key ∷ new))
  unfolding submitted
  received_shares key new h rest = rw (text_eq_refl client.address) (h, rest)

  after_answer-joined :
      (key : Text) (keys : List Text) (new : Trace) (r : UnsealResponse) (u : Trace)
      → r.sealed ≡ ltb (different (key ∷ holds new)) quorum
      → (different (key ∷ holds new) < quorum
          → (submit_keys env client keys u).0
            ≡ ok (ltb (different (joined keys (key ∷ holds new))) quorum))
      → (after_answer (ok r) (submit_keys env client keys) u).0
        ≡ ok (ltb (different (joined keys (key ∷ holds new))) quorum)
  unfolding after_answer pure
  after_answer-joined key keys new r u said later =
      elim (Bool-cases (ltb (different (key ∷ holds new)) quorum)) [
        | inl still ↦ rw (said, still, after_answer) (later (ground (arith, still)))
        | inr open' ↦
            let more = different-joined keys (key ∷ holds new) in
            let over : ltb (different (joined keys (key ∷ holds new))) quorum ≡ false =
              ground (arith, open', more) in
            rw (said, open', after_answer, over) refl
      ]

  submit_keys-joined :
      (keys : List Text) (new : Trace)
      → All IsShare keys
      → All IsShare (submitted client.address new)
      → different (holds new) < quorum
      → (submit_keys env client keys (new ++ start)).0
        ≡ ok (ltb (different (joined keys (holds new))) quorum)
  unfolding submit_keys ◌>>=◌ unseal pure
  submit_keys-joined [] new shares received few =
      ap (λ b. ok b) (let e : true ≡ ltb (different (holds new)) quorum = ground arith in e)
  submit_keys-joined (key ∷ keys) new shares received few =
      let (r, said, sealed) = vault.answers client key new refl (shares.0, received) in
      rw said (
        after_answer-joined key keys new r _ sealed λ few'.
          let next =
            submit_keys-joined keys (write_unseal client key ∷ new) shares.1
              (received_shares key new shares.0 received)
              (subst (λ l. different l < quorum) (sym (holds-write key new)) few') in
          subst
            (λ l.
              (submit_keys env client keys (write_unseal client key ∷ (new ++ start))).0
              ≡ ok (ltb (different (joined keys l)) quorum))
            (holds-write key new) next)

module _ (env : Env) (vu : VaultUnsealer) (pod : Pod) (client : ApiConfig) (status : SealStatus)
    (t : Trace) where
  -- The pod's Vault is found sealed and opens at a quorum of shares, of which it holds some that do
  -- not reach it, and the keys are shares, with repetitions or without. Then the check of the pod
  -- ends without an error, and says that the pod is unsealed exactly when the different shares among
  -- the keys and those that it held reach the quorum.
  pub check_and_unseal_pod-joined :
      (IsShare : Text → Type 0) (quorum : ℕ) (held keys : List Text)
      → IsFoundSealed env vu pod client status t
      → OpensFrom env client.address IsShare quorum held (asked env vu pod client status t)
      → different held < quorum
      → All IsShare keys
      → (check_and_unseal_pod env pod vu keys t).0 ≡ ok (ltb (different (joined keys held)) quorum)
  unfolding submitted
  check_and_unseal_pod-joined IsShare quorum held keys found vault few shares =
      ap (λ p. p.0) (check_found env vu pod client status t keys found)
      ∙ submit_keys-joined env client IsShare quorum held (asked env vu pod client status t) vault
          keys [] shares tt few
