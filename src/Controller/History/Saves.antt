-- ===== src/Controller/History/Saves.antt =====
-- The saves of a history that has grown.
use vault_unsealer.Prelude.{◌+◌, ◌≡◌, ◌⊎◌, inl, inr, [], ◌∷◌, ◌++◌, Memᴰ, some, arith}
use vault_unsealer.Api.{VaultUnsealer}
use vault_unsealer.Cluster.{Trace, update_status}
use vault_unsealer.Controller.Reconcile.Calls.{count_saves}
use vault_unsealer.Controller.Reconcile.Report.{last_saved}

pub count_saves-add : (new t : Trace) → count_saves (new ++ t) ≡ count_saves new + count_saves t
unfolding count_saves
count_saves-add [] t = omega arith
count_saves-add (update_status vu ∷ new) t = omega (arith, count_saves-add new t)
count_saves-add (c ∷ new) t = count_saves-add new t

pub no_save :
    (new t : Trace) (vu : VaultUnsealer)
    → count_saves new ≡ 0
    → Memᴰ (update_status vu) (new ++ t)
    → Memᴰ (update_status vu) t
unfolding count_saves
no_save [] t vu h m = m
no_save (update_status x ∷ new) t vu h m = absurd (omega arith)
no_save (c ∷ new) t vu h (Memᴰ.head e) = absurd (cc)
no_save (c ∷ new) t vu h (Memᴰ.tail m) = no_save new t vu h m

-- With one save among the new calls, a saved status is the last one, or it was saved before.
pub one_save :
    (new t : Trace) (saved vu : VaultUnsealer)
    → count_saves new ≡ 1
    → last_saved (new ++ t) ≡ some saved
    → Memᴰ (update_status vu) (new ++ t)
    → (vu ≡ saved) ⊎ Memᴰ (update_status vu) t
unfolding count_saves last_saved
one_save [] t saved vu one is m = absurd (omega arith)
one_save (update_status x ∷ new) t saved vu one is (Memᴰ.head e) = inl (cc)
one_save (update_status x ∷ new) t saved vu one is (Memᴰ.tail m) =
    inr (no_save new t vu (omega arith) m)
one_save (c ∷ new) t saved vu one is (Memᴰ.head e) = absurd (cc)
one_save (c ∷ new) t saved vu one is (Memᴰ.tail m) = one_save new t saved vu one is m
