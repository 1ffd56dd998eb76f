-- ===== src/Controller/Lifecycle/Deletions.antt =====
-- Which series the cleanup deletes.
use vault_unsealer.Prelude.{◌≡◌, refl, List, [], ◌∷◌}
use vault_unsealer.Text.{Text}
use vault_unsealer.Api.{VaultUnsealer}
use vault_unsealer.Cluster.{Call, Prog, ◌>>=◌, emit, Series, delete}
use vault_unsealer.Cluster.Emits.{Emits, Emits-bind, Emits-pure, Emits-emit}
use vault_unsealer.Cluster.Owner.{owner, key_of}
use vault_unsealer.Controller.Lifecycle.{cleanup_metrics, delete_pod_metrics}

-- With a property of the deletions of the object's series.
module _ (vu : VaultUnsealer) (P : Call → Type 0)
    (own : (s : Series) → owner s ≡ key_of vu → P (delete s)) where
  deletion :
      (s : Series) {rest : Unit {0} → Prog (Unit {0})}
      → owner s ≡ key_of vu
      → ((u : Unit {0}) → Emits P (rest u))
      → Emits P (emit (delete s) >>= rest)
  deletion s e h = Emits-bind _ _ (Emits-emit _ (own s e)) h

  delete_pod_metrics-Emits :
      (pods : List Text) → Emits P (delete_pod_metrics vu.name vu.namespace pods)
  unfolding delete_pod_metrics
  delete_pod_metrics-Emits [] = Emits-pure _
  delete_pod_metrics-Emits (pod ∷ pods) =
      deletion _ refl λ _. deletion _ refl λ _. deletion _ refl (λ _. delete_pod_metrics-Emits pods)

  pub cleanup_metrics-Emits : Emits P (cleanup_metrics vu)
  unfolding cleanup_metrics
  cleanup_metrics-Emits = deletion _ refl λ _. deletion _ refl λ _. deletion _ refl λ _.
      deletion _ refl λ _. deletion _ refl λ _. deletion _ refl λ _.
        deletion _ refl λ _. deletion _ refl (λ _. delete_pod_metrics-Emits vu.status.pods_checked)
