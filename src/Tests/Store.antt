-- ===== src/Tests/Store.antt =====
-- A run of Reconcile with an API server that keeps what was written.
use vault_unsealer.Prelude.{refl, [], ◌∷◌}
use vault_unsealer.Text.{codes}
use vault_unsealer.Result.{ok}
use vault_unsealer.Api.{VaultUnsealer, NamespacedName}
use vault_unsealer.Cluster.{Env, Trace, update}
use vault_unsealer.Controller.Lifecycle.{reconcile}
use vault_unsealer.Cluster.Grew.{Grew}
use vault_unsealer.Controller.Isolation.{IsOwn}
use vault_unsealer.Controller.Lifecycle.Isolation.{reconcile-IsOwn}
use vault_unsealer.Tests.World.{world, unsealer}

-- the object as it was last written
abbrev stored : VaultUnsealer → Trace → VaultUnsealer
stored vu [] = vu
stored vu (update new ∷ t) = new
stored vu (c ∷ t) = stored vu t

abbrev server : VaultUnsealer → Env
server vu = record (world vu) { get_vault_unsealer = λ t id. ok (stored vu t) }

abbrev id : NamespacedName
id = record { namespace = codes "vault"; name = codes "main" }

reconcile-IsOwn_example : Grew (IsOwn unsealer) [] (reconcile (server unsealer) id []).1
reconcile-IsOwn_example = reconcile-IsOwn (server unsealer) id [] unsealer refl refl
