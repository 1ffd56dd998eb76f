-- ===== src/Controller/History/Series.antt =====
-- The metrics registry over a whole history: which series are alive, and what the deletion of an
-- object leaves of its own.
use mathlib.Core.List.Memᴰ
use vault_unsealer.Prelude.{◌≡◌, ◌≢◌, sym, ap, subst, ◌⊎◌, inl, inr, [], ◌∷◌, ◌++◌, All, Memᴰ}
use vault_unsealer.Result.{Result, ok, err}
use vault_unsealer.Api.{VaultUnsealer}
use vault_unsealer.Cluster.{
  Env, Call, Trace, Series, get_vault_unsealer, update_status, inc, set, observe, delete,
}
use vault_unsealer.Cluster.Emits.{All-mono}
use vault_unsealer.Cluster.Grew.{Grew, Grew-refl, Grew-call}
use vault_unsealer.Controller.Pods.Loop.Cleaned.{WritesOnly}
use vault_unsealer.Controller.Lifecycle.Laws.{IsLifecycleCall, reconcile_idle}
use vault_unsealer.Controller.Lifecycle.Cleanup.{IsSeriesOf}
use vault_unsealer.Controller.Reconcile.{reconcile_vault_unsealer}
use vault_unsealer.Controller.Reconcile.Metrics.{of_saved, reconcile_vault_unsealer-IsRecorded}
use vault_unsealer.Controller.History.{
  Reachable, booted, reconciled, reconcile_cases, Memᴰ-last_saved,
}

-- The registry holds the series behind the history: it was written, and not deleted since.
abbrev pub IsAlive : Series → Trace → Type 0
IsAlive s [] = ⊥
IsAlive s (inc r ∷ t) = (r ≡ s) ⊎ IsAlive s t
IsAlive s (set r n ∷ t) = (r ≡ s) ⊎ IsAlive s t
IsAlive s (observe r n ∷ t) = (r ≡ s) ⊎ IsAlive s t
IsAlive s (delete r ∷ t) = (r ≢ s) × IsAlive s t
IsAlive s (c ∷ t) = IsAlive s t

-- A status in the history lists what the series speaks of.
abbrev pub IsSourced : Series → Trace → Type 0
IsSourced s t =
    (vu : VaultUnsealer) × Memᴰ (update_status vu) t
    × IsSeriesOf vu.name vu.namespace vu.status.pods_checked s

-- A series that is alive was alive before, or it was written.
pub alive_before :
    (P : Series → Type 0) (s : Series) (new t : Trace)
    → All (WritesOnly P) new
    → IsAlive s (new ++ t)
    → P s ⊎ IsAlive s t
alive_before P s [] t h alive = inr alive
alive_before P s (inc r ∷ new) t h (inl e) = inl (subst P e h.0)
alive_before P s (inc r ∷ new) t h (inr alive) = alive_before P s new t h.1 alive
alive_before P s (set r n ∷ new) t h (inl e) = inl (subst P e h.0)
alive_before P s (set r n ∷ new) t h (inr alive) = alive_before P s new t h.1 alive
alive_before P s (observe r n ∷ new) t h (inl e) = inl (subst P e h.0)
alive_before P s (observe r n ∷ new) t h (inr alive) = alive_before P s new t h.1 alive
alive_before P s (delete r ∷ new) t h alive = alive_before P s new t h.1 alive.1
alive_before P s (c ∷ new) t h alive = alive_before P s new t h.1 alive

IsSourced-Grew :
    {P : Call → Type 0} (s : Series) (t u : Trace) → Grew P t u → IsSourced s t → IsSourced s u
IsSourced-Grew s t u (new, e, h) (vu, m, own) =
    (vu, subst (λ w. Memᴰ (update_status vu) w) (sym e) (Memᴰ.append_right new m), own)

-- Idle runs write no series.
pub writes_nothing :
    (env : Env) (found : Result VaultUnsealer) (c : Call)
    → IsLifecycleCall env found c
    → WritesOnly (λ s. ⊥) c
writes_nothing env (err e) (inc s) h = h
writes_nothing env (err e) (set s n) h = h
writes_nothing env (err e) (observe s n) h = h
writes_nothing env (ok vu) (inc s) h = h
writes_nothing env (ok vu) (set s n) h = h
writes_nothing env (ok vu) (observe s n) h = h
writes_nothing env found c h = tt

pass_sources :
    (env : Env) (vu : VaultUnsealer) (t : Trace) (s : Series)
    → (IsAlive s t → IsSourced s t)
    → IsAlive s (reconcile_vault_unsealer env vu t).1
    → IsSourced s (reconcile_vault_unsealer env vu t).1
pass_sources env vu t s before alive =
    let body = reconcile_vault_unsealer-IsRecorded env vu t in
    let u = (reconcile_vault_unsealer env vu t).1 in
    let (new, e, all) = body.grew in
    elim (alive_before _ s new t all (subst (IsAlive s) e alive)) [
      | inl own ↦ (
        body.saved,
        Memᴰ-last_saved u body.saved body.is_last,
        of_saved vu s body.saved body.same own,
      )
      | inr old ↦ IsSourced-Grew s t u body.grew (before old)
    ]

-- In every history that the controller comes to, each series that the registry holds belongs to an
-- object whose status was saved in that history, and its pod, if it has one, is among the pods that
-- this status lists as checked.
pub alive-IsSourced :
    (env : Env) (t : Trace) → Reachable env t → (s : Series) → IsAlive s t → IsSourced s t
alive-IsSourced env t booted s alive = absurd alive
alive-IsSourced env t (reconciled {t = u} id h) s alive =
    let older = alive-IsSourced env u h s in
    elim (reconcile_cases env id u) [
      | inl (vu, found, ran) ↦
          subst (λ w. IsSourced s w) (sym (ap (λ r. r.1) ran))
            (pass_sources env vu (get_vault_unsealer id ∷ u) s
              (λ a. IsSourced-Grew s u _ (Grew-call {P = λ c. Unit} _ tt Grew-refl) (older a))
              (subst (λ w. IsAlive s w) (ap (λ r. r.1) ran) alive))
      | inr idle ↦
          let (new, e, all) = reconcile_idle env id u idle in
          elim (alive_before (λ s. ⊥) s new u
            (All-mono (writes_nothing env (env.get_vault_unsealer u id)) new all)
            (subst (λ w. IsAlive s w) e alive)) [
              | inl none' ↦ absurd none'
              | inr old ↦ IsSourced-Grew s u _ (new, e, all) (older old)
            ]
    ]
