-- ===== src/Controller/Pods/Held.antt =====
-- The shares that a Vault holds behind the submission of fresh keys.
use vault_unsealer.Prelude.{
  ℕ, ◌+◌, ◌≡◌, refl, ap, ◌∙◌, List, [], ◌∷◌, ◌++◌, length, All, IsDistinct, arith,
}
use vault_unsealer.Text.{Text}
use vault_unsealer.Cluster.{Env, Trace, ApiConfig, write_unseal}
use vault_unsealer.Secrets.Loader.Distinct.{first_occurrences_of_IsDistinct}
use vault_unsealer.Controller.Pods.Submission.{sent}
use vault_unsealer.Controller.Pods.Quorum.{
  submitted, progress, OpensAt, AreFresh, freshness, received-write,
}

module _ (env : Env) (client : ApiConfig) (IsShare : Text → Type 0) (quorum : ℕ) (start : Trace)
    (vault : OpensAt env client.address IsShare quorum start) where
  -- Behind `start`, the keys `n` in number are held.
  pub record Received (t : Trace) (n : ℕ) : Type 0 where
    pub new : Trace
    pub same : t ≡ new ++ start
    pub shares : All IsShare (submitted client.address new)
    pub distinct : IsDistinct (submitted client.address new)
    pub number : length (submitted client.address new) ≡ n

  pub sent-Received :
      (keys : List Text) (new : Trace)
      → AreFresh env client IsShare quorum start vault new keys
      → Received
          (sent env client keys (new ++ start))
          (length keys + length (submitted client.address new))
  sent-Received [] new h = record {
    new = new;
    same = refl;
    shares = h.received_shares;
    distinct = h.received_distinct;
    number = omega arith;
  }
  sent-Received (key ∷ keys) new h =
      let r =
        sent-Received keys (write_unseal client key ∷ new)
          (freshness env client IsShare quorum start vault h) in
      let one = ap length (received-write env client IsShare quorum start vault key new) in
      record {
        new = r.new;
        same = r.same;
        shares = r.shares;
        distinct = r.distinct;
        number = let n = r.number in omega arith;
      }

  -- All of them count.
  pub progress-Received :
      {t : Trace} {n : ℕ} (r : Received t n) → progress (submitted client.address r.new) ≡ n
  progress-Received r =
      ap length (first_occurrences_of_IsDistinct (submitted client.address r.new) r.distinct)
      ∙ r.number
