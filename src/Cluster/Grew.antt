-- ===== src/Cluster/Grew.antt =====
-- Two histories of which the later one has more calls, all of a kind.
use vault_unsealer.Prelude.{◌≡◌, refl, sym, ap, ◌∙◌, [], ◌∷◌, ◌++◌, append_assoc, All, All-append}
use vault_unsealer.Cluster.{Call, Trace, Prog}
use vault_unsealer.Cluster.Emits.{Emits}

abbrev pub Grew : (Call → Type 0) → Trace → Trace → Type 0
Grew P before after = (new : Trace) × (after ≡ new ++ before) × All P new

module _ {P : Call → Type 0} where
  pub Grew-refl : {t : Trace} → Grew P t t
  Grew-refl = ([], refl, tt)

  pub Grew-call : {t u : Trace} (c : Call) → P c → Grew P t u → Grew P t (c ∷ u)
  Grew-call c h (new, e, all) = (c ∷ new, ap (λ l. c ∷ l) e, (h, all))

  pub Grew-trans : {t u w : Trace} → Grew P t u → Grew P u w → Grew P t w
  Grew-trans {t} (first, e, h) (second, e', h') = (
    second ++ first,
    e' ∙ ap (λ l. second ++ l) e ∙ sym (append_assoc second first t),
    All-append P second first h' h,
  )

  pub Grew-of_Emits {ℓ} : {A : Type ℓ} {m : Prog A} (t : Trace) → Emits P m → Grew P t (m t).1
  Grew-of_Emits t h = h.at t
