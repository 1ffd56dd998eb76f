-- ===== src/Controller/Pods/Quorum.antt =====
-- A Vault that opens at a number of shares, and the keys that are submitted to it.
use vault_unsealer.Prelude.{
  ℕ, zero, suc, ◌+◌, ◌<◌, ◌≡◌, ◌≢◌, refl, sym, ap, ◌∙◌, Bool, true, false, List, [], ◌∷◌, ◌++◌,
  if◌then◌else◌, ltb, length, take, All, IsDistinct, arith,
}
use vault_unsealer.Text.{Text, text_eq, text_eq_refl}
use vault_unsealer.Result.{Result, ok}
use vault_unsealer.Cluster.{Env, Trace, pure, ◌>>=◌, ApiConfig, UnsealResponse, write_unseal}
use vault_unsealer.Vault.{unseal}
use vault_unsealer.Secrets.Loader.Distinct.{first_occurrences, first_occurrences_of_IsDistinct}
use vault_unsealer.Controller.Pods.{after_answer, submit_keys}
use vault_unsealer.Controller.Pods.Submission.{sent}

-- The keys that a history submits to the Vault at an address, the latest first.
unfoldable pub submitted : Text → Trace → List Text
submitted address [] = []
submitted address (write_unseal client key ∷ t) =
    let rest = submitted address t in if text_eq client.address address then key ∷ rest else rest
submitted address (c ∷ t) = submitted address t

-- The number of different shares that a Vault holds which received `keys`.
abbrev pub progress : List Text → ℕ
progress keys = length (first_occurrences keys)

-- From `start` on, where it holds no share, the Vault at the address behaves as documented: as long as
-- it receives shares alone it answers, it counts a repeated share once, and it says that it is sealed
-- while it holds less than `quorum` of them.
pub record OpensAt (env : Env) (address : Text) (IsShare : Text → Type 0) (quorum : ℕ)
    (start : Trace) : Type 0 where
  pub answers :
      (client : ApiConfig) (key : Text) (new : Trace)
      → client.address ≡ address
      → All IsShare (key ∷ submitted address new)
      → (r : UnsealResponse) × ((unseal env client key (new ++ start)).0 ≡ ok r)
        × (r.sealed ≡ ltb (progress (key ∷ submitted address new)) quorum)

module _ (env : Env) (client : ApiConfig) (IsShare : Text → Type 0) (quorum : ℕ) (start : Trace)
    (vault : OpensAt env client.address IsShare quorum start) where
  abbrev pub received : Trace → List Text
  received new = submitted client.address new

  pub received-write :
      (key : Text) (new : Trace) → received (write_unseal client key ∷ new) ≡ key ∷ received new
  unfolding submitted
  received-write key new = rw (text_eq_refl client.address)

  -- The keys that were received and those that follow are different shares.
  pub record AreFresh (new : Trace) (keys : List Text) : Type 0 where
    pub shares : All IsShare keys
    pub received_shares : All IsShare (received new)
    pub distinct : IsDistinct keys
    pub received_distinct : IsDistinct (received new)
    pub apart : All (λ k. All (λ j. k ≢ j) (received new)) keys

  pub freshness :
      {new : Trace} {key : Text} {keys : List Text}
      → AreFresh new (key ∷ keys)
      → AreFresh (write_unseal client key ∷ new) keys
  freshness {new} {key} {keys} h = record {
    shares = h.shares.1;
    received_shares = rw (received-write key new) (h.shares.0, h.received_shares);
    distinct = h.distinct.1;
    received_distinct = rw (received-write key new) (h.apart.0, h.received_distinct);
    apart = rw (received-write key new) (both keys h.distinct.0 h.apart.1);
  }
    where
      both :
          (ks : List Text)
          → All (λ k. key ≢ k) ks
          → All (λ k. All (λ j. k ≢ j) (received new)) ks
          → All (λ k. All (λ j. k ≢ j) (key ∷ received new)) ks
      both [] d a = tt
      both (k ∷ ks) d a = ((λ e. d.0 (sym e), a.0), both ks d.1 a.1)

  -- The answer to a key that is fresh: sealed, while the quorum is not reached with it.
  fresh_answer :
      (key : Text) (keys : List Text) (new : Trace)
      → AreFresh new (key ∷ keys)
      → (r : UnsealResponse) × ((unseal env client key (new ++ start)).0 ≡ ok r)
        × (r.sealed ≡ ltb (suc (length (received new))) quorum)
  fresh_answer key keys new h =
      let (r, e, s) = vault.answers client key new refl (h.shares.0, h.received_shares) in
      let once =
        first_occurrences_of_IsDistinct (key ∷ received new) (h.apart.0, h.received_distinct) in
      (r, e, s ∙ ap (λ l. ltb (length l) quorum) once)

  abbrev after_keys_of : ℕ → List Text → Trace → Result Bool × Trace
  after_keys_of missing keys t =
      (ok (ltb (length keys) missing), sent env client (take missing keys) t)

  -- What follows an answer that is sealed as long as the quorum is missed, by what follows later.
  after_answer_by :
      (key : Text) (keys : List Text) (t : Trace) (r : UnsealResponse) (missing : ℕ)
      → r.sealed ≡ ltb 0 missing
      → ((m : ℕ)
          → missing ≡ suc m
          → submit_keys env client keys (write_unseal client key ∷ t)
            ≡ after_keys_of (suc m) keys (write_unseal client key ∷ t))
      → after_answer (ok r) (submit_keys env client keys) (write_unseal client key ∷ t)
        ≡ after_keys_of (suc missing) (key ∷ keys) t
  unfolding after_answer pure
  after_answer_by key keys t r zero said later =
      rw (said, after_answer)
        (ap (λ b. (ok b, write_unseal client key ∷ t))
          (let e : false ≡ ltb (suc (length keys)) 1 = ground arith in e))
  after_answer_by key keys t r (suc m) said later =
      let sealed : r.sealed ≡ true = said ∙ ground arith in
      rw (sealed, after_answer)
        (later m refl
          ∙ ap (λ b. (ok b, sent env client (take (suc m) keys) (write_unseal client key ∷ t)))
              (let e : ltb (length keys) (suc m) ≡ ltb (suc (length keys)) (suc (suc m)) =
                  ground arith in
                e))

  submit_keys_from :
      (keys : List Text) (new : Trace) (missing : ℕ)
      → AreFresh new keys
      → length (received new) + suc missing ≡ quorum
      → submit_keys env client keys (new ++ start) ≡ after_keys_of (suc missing) keys (new ++ start)
  unfolding submit_keys ◌>>=◌ unseal pure
  submit_keys_from [] new missing h e =
      ap (λ b. (ok b, new ++ start)) (let e : true ≡ ltb 0 (suc missing) = ground arith in e)
  submit_keys_from (key ∷ keys) new missing h e =
      let (r, said, sealed) = fresh_answer key keys new h in
      let sealed' : r.sealed ≡ ltb 0 missing = sealed ∙ ground arith in
      let counted = ap length (received-write key new) in
      rw said (
        after_answer_by key keys (new ++ start) r missing sealed' λ m e'.
          submit_keys_from keys (write_unseal client key ∷ new) m (freshness h) (omega arith))

-- If a sealed Vault opens at a quorum of shares and holds none, then different shares are submitted
-- to it one after the other until the quorum is reached or there are no more, and the result is
-- "unsealed" exactly when there are enough.
pub submit_keys-quorum :
    (env : Env) (client : ApiConfig) (IsShare : Text → Type 0) (quorum : ℕ) (t : Trace)
    (keys : List Text)
    → OpensAt env client.address IsShare quorum t
    → 0 < quorum
    → All IsShare keys
    → IsDistinct keys
    → submit_keys env client keys t
      ≡ (ok (ltb (length keys) quorum), sent env client (take quorum keys) t)
submit_keys-quorum env client IsShare zero t keys vault positive shares distinct =
    absurd (omega arith)
submit_keys-quorum env client IsShare (suc missing) t keys vault positive shares distinct =
    submit_keys_from env client IsShare (suc missing) t vault keys [] missing
      (record {
        shares = shares;
        received_shares = unfold submitted in tt;
        distinct = distinct;
        received_distinct = unfold submitted in tt;
        apart = unfold submitted in nothing keys;
      })
      (unfold submitted in omega arith)
  where
    nothing : (ks : List Text) → All (λ k. All (λ j. k ≢ j) []) ks
    nothing [] = tt
    nothing (k ∷ ks) = (tt, nothing ks)
