-- ===== src/Tests/Joined.antt =====
-- A Vault that opens at three different shares and holds one of them when the run begins.
use vault_unsealer.Prelude.{
  ◌≡◌, refl, ap, ◌∙◌, true, false, List, [], ◌∷◌, ◌++◌, some, if◌then◌else◌, ltb, arith,
}
use vault_unsealer.Text.{Text, codes, text_eq}
use vault_unsealer.Result.{ok}
use vault_unsealer.Cluster.{
  Env, Trace, ApiConfig, http, skip_verify, ◌>>=◌, pure, perform, SealStatus, Pod,
}
use vault_unsealer.Vault.{unseal, get_seal_status, new_client}
use vault_unsealer.Controller.Connection.{create_vault_client, choose_tls, vault_url}
use vault_unsealer.Controller.Pods.{check_and_unseal_pod}
use vault_unsealer.Controller.Pods.Quorum.{submitted}
use vault_unsealer.Controller.Pods.Enough.{IsFoundSealed, asked}
use vault_unsealer.Controller.Pods.Partial.{
  is_among, different, OpensFrom, check_and_unseal_pod-joined,
}
use vault_unsealer.Tests.World.{world, unsealer, ready_pod, seal_status}
use vault_unsealer.Tests.Shares.{said, submitted_later}

abbrev held : List Text
held = codes "gamma" ∷ []

abbrev vault : Env
vault = record (world unsealer) {
  write_unseal = λ t client key. ok (
      if ltb (different (key ∷ (submitted client.address t ++ held))) 3
      then codes "closed"
      else codes "open");
  read_seal_status = λ t client. ok (codes "closed");
  decode_seal_status = λ body. ok (seal_status (text_eq body (codes "closed")));
  decode_unseal_response =
      λ body. ok (record { sealed = text_eq body (codes "closed"); t = 3; n = 5; progress = 0 });
}

vault-OpensFrom :
    (address : Text) (start : Trace)
    → submitted address start ≡ []
    → OpensFrom vault address (λ k. Unit) 3 held start
unfolding unseal ◌>>=◌ pure perform
vault-OpensFrom address start empty = record {
  answers = λ client key new same shares. (
    record {
      sealed =
          text_eq
            (if ltb (different (key ∷ (submitted client.address (new ++ start) ++ held))) 3
              then codes "closed"
              else codes "open")
            (codes "closed");
      t = 3;
      n = 5;
      progress = 0;
    },
    refl,
    said _
        ∙ ap (λ a. ltb (different (key ∷ (submitted a (new ++ start) ++ held))) 3) same
        ∙ ap (λ l. ltb (different (key ∷ (l ++ held))) 3) (submitted_later address new start empty),
  );
}

abbrev client : ApiConfig
client = record { address = codes "http://10.0.0.1:8200"; transport = http (some skip_verify) }

abbrev pod : Pod
pod = ready_pod (codes "vault-0") (codes "10.0.0.1")

abbrev status : SealStatus
status = seal_status true

found_sealed : IsFoundSealed vault unsealer pod client status []
unfolding create_vault_client get_seal_status choose_tls new_client vault_url text_eq ◌>>=◌
found_sealed = record { client_made = refl; answered = refl; sealed = refl }

-- two of the three keys are different, and the one that is held is not among them
abbrev keys : List Text
keys = codes "alpha" ∷ codes "alpha" ∷ codes "beta" ∷ []

check_and_unseal_pod-joined_example : (check_and_unseal_pod vault pod unsealer keys []).0 ≡ ok false
unfolding submitted create_vault_client ◌>>=◌ new_client text_eq choose_tls different is_among
check_and_unseal_pod-joined_example =
    check_and_unseal_pod-joined vault unsealer pod client status [] (λ k. Unit) 3 held keys
      found_sealed (vault-OpensFrom client.address (asked vault unsealer pod client status []) refl)
      (omega arith) (tt, (tt, (tt, tt)))
