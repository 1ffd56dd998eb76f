-- ===== src/Tests/Records.antt =====
-- What a pass submits, writes to the metrics and logs, over the small cluster.
use vault_unsealer.Prelude.{
  ℕ, zero, suc, subst, ◌+◌, ◌*◌, ◌<◌, ◌≤◌, pos_part, ◌≡◌, refl, List, [], ◌∷◌, some, length, All,
  arith,
}
use vault_unsealer.Text.{codes}
use vault_unsealer.Result.{Result, ok}
use vault_unsealer.Api.{VaultUnsealer}
use vault_unsealer.Cluster.{Env}
use vault_unsealer.Cluster.Grew.{Grew}
use vault_unsealer.Controller.Pods.Bounds.{submissions}
use vault_unsealer.Controller.Pods.Total.{calls}
use vault_unsealer.Controller.Reconcile.Attested.{
  pods_in, IsWitnessed, reconcile_vault_unsealer-IsWitnessed,
}
use vault_unsealer.Controller.Reconcile.Total.{calls-reconcile_vault_unsealer}
use vault_unsealer.Controller.Pods.Loop.Cleaned.{WritesOnly}
use vault_unsealer.Controller.Reconcile.{reconcile_vault_unsealer}
use vault_unsealer.Controller.Reconcile.Report.{last_saved, listed_at}
use vault_unsealer.Controller.Reconcile.Bounds.{found, submissions-reconcile_vault_unsealer}
use vault_unsealer.Controller.Reconcile.Accepted.{IsAccounted, reconcile_vault_unsealer-IsAccounted}
use vault_unsealer.Controller.Reconcile.Labels.{IsLabelled, reconcile_vault_unsealer-IsLabelled}
use vault_unsealer.Controller.Identifiers.{IsRandom, IsHexDigit, unhex, generate_reconcile_id-hex}
use vault_unsealer.Tests.World.{world, unsealer}

abbrev cluster : Env
cluster = world unsealer

submissions-reconcile_vault_unsealer_example :
    submissions (reconcile_vault_unsealer cluster unsealer []).1
    ≤ found (listed_at cluster unsealer []) * pos_part unsealer.spec.key_threshold + submissions []
submissions-reconcile_vault_unsealer_example =
    submissions-reconcile_vault_unsealer cluster unsealer [] (omega arith)

reconcile_vault_unsealer-IsWitnessed_example :
    IsWitnessed cluster unsealer.spec.vault.url
      (pods_in (listed_at cluster unsealer []))
      []
      (reconcile_vault_unsealer cluster unsealer []).1
reconcile_vault_unsealer-IsWitnessed_example =
    reconcile_vault_unsealer-IsWitnessed cluster unsealer []

calls-reconcile_vault_unsealer_example :
    calls (reconcile_vault_unsealer cluster unsealer []).1
    ≤ 11
      + length unsealer.spec.unseal_keys_secret_refs
      + found (listed_at cluster unsealer []) * (pos_part unsealer.spec.key_threshold + 5)
      + calls []
calls-reconcile_vault_unsealer_example =
    calls-reconcile_vault_unsealer cluster unsealer [] (omega arith)

reconcile_vault_unsealer-IsAccounted_example :
    IsAccounted cluster
      (listed_at cluster unsealer [])
      (reconcile_vault_unsealer cluster unsealer []).0
      (reconcile_vault_unsealer cluster unsealer []).1
reconcile_vault_unsealer-IsAccounted_example =
    reconcile_vault_unsealer-IsAccounted cluster unsealer []

reconcile_vault_unsealer-IsLabelled_example :
    (saved : VaultUnsealer) × (last_saved (reconcile_vault_unsealer cluster unsealer []).1
      ≡ some saved)
    × Grew
        (WritesOnly (IsLabelled (codes "main") (codes "vault") saved.status.pods_checked))
        []
        (reconcile_vault_unsealer cluster unsealer []).1
reconcile_vault_unsealer-IsLabelled_example =
    reconcile_vault_unsealer-IsLabelled cluster unsealer []

abbrev zeros : ℕ → List ℕ
zeros zero = []
zeros (suc n) = 0 ∷ zeros n

abbrev random : ℕ → Result (List ℕ)
random n = ok (zeros n)

length-zeros : (n : ℕ) → length (zeros n) ≡ n
length-zeros zero = refl
length-zeros (suc n) = omega (arith, length-zeros n)

zeros-small : (n : ℕ) → All (λ b. b < 256) (zeros n)
zeros-small zero = tt
zeros-small (suc n) = (omega arith, zeros-small n)

random-IsRandom : IsRandom random
random-IsRandom = record {
  filled = λ n bytes e. subst (λ l. length l ≡ n) (of_ok e) (length-zeros n);
  are_bytes = λ n bytes e. subst (All (λ b. b < 256)) (of_ok e) (zeros-small n);
}
  where
    of_ok : {a b : List ℕ} → ok a ≡ ok b → a ≡ b
    of_ok h = cc

generate_reconcile_id-hex_example :
    (length (codes "00000000") ≡ 8)
    × All IsHexDigit (codes "00000000")
    × (random 4 ≡ ok (unhex (codes "00000000")))
generate_reconcile_id-hex_example =
    generate_reconcile_id-hex random (codes "00000000") random-IsRandom refl
