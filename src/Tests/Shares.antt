-- ===== src/Tests/Shares.antt =====
-- A Vault that opens at two different shares, the keys of the secrets that are shares for it.
use mathlib.Core.List.{flatten}
use vault_unsealer.Prelude.{
  pos, ◌≡◌, refl, ap, subst, ◌∙◌, Bool, true, false, some, List, [], ◌∷◌, ◌++◌, if◌then◌else◌, ltb,
  arith,
}
use vault_unsealer.Text.{Text, codes, text_eq, text_eq_refl}
use vault_unsealer.Result.{Result, ok}
use vault_unsealer.Cluster.{
  Env, Trace, ApiConfig, absent, http, skip_verify, ◌>>=◌, pure, perform, UnsealResponse,
  SealStatus, Pod,
}
use vault_unsealer.Vault.{unseal, get_seal_status, new_client}
use vault_unsealer.Controller.Connection.{create_vault_client, choose_tls, vault_url}
use vault_unsealer.Secrets.Loader.{
  load_unseal_keys, collect, load_keys_from_secret, finish, add_keys, add_key,
}
use vault_unsealer.Secrets.Loader.Laws.{read_all}
use vault_unsealer.Secrets.Keys.{parse_keys}
use vault_unsealer.Text.Lines.{split_lines}
use vault_unsealer.Controller.Pods.Enough.{IsFoundSealed, used, asked, check_and_unseal_pod-enough}
use vault_unsealer.Controller.Pods.{check_and_unseal_pod}
use vault_unsealer.Controller.Pods.Quorum.{submitted, progress, OpensAt}
use vault_unsealer.Secrets.Loader.Distinct.{first_occurrences}
use vault_unsealer.Controller.Pods.Behaviour.{submitted-append}
use vault_unsealer.Prelude.{append-nil, some}
use vault_unsealer.Tests.World.{world, unsealer, key_ref, ready_pod, seal_status}

-- The answer to a key: the Vault is sealed below two shares.
abbrev answer : Trace → ApiConfig → Text → Result Text
answer t client key =
    ok
      (if ltb (progress (key ∷ submitted client.address t)) 2 then codes "closed" else codes "open")

abbrev pub vault : Env
vault = record (world unsealer) {
  write_unseal = answer;
  read_seal_status = λ t client.
      ok (if ltb (progress (submitted client.address t)) 2 then codes "closed" else codes "open");
  decode_seal_status = λ body. ok (seal_status (text_eq body (codes "closed")));
  decode_unseal_response =
      λ body. ok (record { sealed = text_eq body (codes "closed"); t = 2; n = 3; progress = 0 });
}

pub submitted_later :
    (address : Text) (new start : Trace)
    → submitted address start ≡ []
    → submitted address (new ++ start) ≡ submitted address new
submitted_later address new start empty =
    submitted-append address new start
    ∙ ap (λ l. submitted address new ++ l) empty
    ∙ append-nil (submitted address new)

pub said : (b : Bool) → text_eq (if b then codes "closed" else codes "open") (codes "closed") ≡ b
unfolding text_eq
said true = refl
said false = refl

vault-answers :
    (address : Text) (start : Trace) (client : ApiConfig) (key : Text) (new : Trace)
    → submitted address start ≡ []
    → client.address ≡ address
    → (r : UnsealResponse) × ((unseal vault client key (new ++ start)).0 ≡ ok r)
      × (r.sealed ≡ ltb (progress (key ∷ submitted address new)) 2)
unfolding unseal ◌>>=◌ pure perform
vault-answers address start client key new empty same =
    let it : UnsealResponse = record {
      sealed =
          text_eq
            (if ltb (progress (key ∷ submitted client.address (new ++ start))) 2
              then codes "closed"
              else codes "open")
            (codes "closed");
      t = 2;
      n = 3;
      progress = 0;
    } in
    (
      it,
      refl,
      said _
          ∙ ap (λ a. ltb (progress (key ∷ submitted a (new ++ start))) 2) same
          ∙ ap (λ l. ltb (progress (key ∷ l)) 2) (submitted_later address new start empty),
    )

pub vault-OpensAt :
    (address : Text) (start : Trace)
    → submitted address start ≡ []
    → OpensAt vault address (λ k. Unit) 2 start
vault-OpensAt address start empty = record {
  answers = λ client key new same shares. vault-answers address start client key new empty same;
}

abbrev client : ApiConfig
client = record { address = codes "http://10.0.0.1:8200"; transport = absent }

pub differ : {s t : Text} → text_eq s t ≡ false → s ≡ t → ⊥
differ {s} {t} different same =
    let yes : text_eq s t ≡ true = subst (λ u. text_eq s u ≡ true) same (text_eq_refl s) in cc

abbrev found_client : ApiConfig
found_client = record client { transport = http (some skip_verify) }

abbrev pod : Pod
pod = ready_pod (codes "vault-0") (codes "10.0.0.1")

abbrev pub two_keys : List Text
two_keys = codes "alpha" ∷ codes "beta" ∷ []

abbrev status : SealStatus
status = seal_status true

found_sealed : IsFoundSealed vault unsealer pod found_client status []
unfolding create_vault_client get_seal_status choose_tls new_client vault_url text_eq ◌>>=◌
    first_occurrences submitted
found_sealed = record { client_made = refl; answered = refl; sealed = refl }

check_and_unseal_pod-enough_example :
    (check_and_unseal_pod vault pod unsealer two_keys []).0 ≡ ok false
unfolding load_unseal_keys submitted create_vault_client ◌>>=◌ new_client collect
    load_keys_from_secret text_eq parse_keys split_lines finish add_keys add_key read_all choose_tls
    flatten used first_occurrences
check_and_unseal_pod-enough_example =
    check_and_unseal_pod-enough vault unsealer pod found_client status [] (λ k. Unit) 2
      (codes "vault") (key_ref ∷ []) (pos 2) [] two_keys
      ((codes "alpha" ∷ codes "beta" ∷ codes "alpha" ∷ []) ∷ []) found_sealed
      (vault-OpensAt found_client.address (asked vault unsealer pod found_client status []) refl)
      (omega arith) refl refl (tt, (tt, (tt, tt)))
