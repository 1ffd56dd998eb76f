-- ===== src/Controller/Pods/Loop/Rounds.antt =====
-- The visits of the loop over the pods as a relation: the pods, the names that are checked and the
-- names that are counted as unsealed.
use vault_unsealer.Prelude.{
  ◌≤◌, ◌≡◌, refl, ap, ◌⊎◌, inl, inr, Bool, true, false, List, [], ◌∷◌, ◌++◌, length, arith, Memᴰ,
  sym, ◌∙◌, ◌≢◌,
}
use vault_unsealer.Text.{Text}
use vault_unsealer.Cluster.{Pod}
use vault_unsealer.Controller.Pods.{is_pod_ready}

-- With HA the loop goes on behind a pod that was unsealed, and without it ends there.
pub data Visits (ha : Bool) : List Pod → List Text → List Text → Type 0 where
  done : Visits ha [] [] []
  passed :
      {pod : Pod} {pods : List Pod} {cs us : List Text}
      → Visits ha pods cs us
      → Visits ha (pod ∷ pods) (pod.name ∷ cs) us
  opened :
      {pod : Pod} {pods : List Pod} {cs us : List Text}
      → is_pod_ready pod ≡ true
      → ha ≡ true
      → Visits ha pods cs us
      → Visits ha (pod ∷ pods) (pod.name ∷ cs) (pod.name ∷ us)
  ended :
      {pod : Pod} {pods : List Pod}
      → is_pod_ready pod ≡ true
      → ha ≡ false
      → Visits ha (pod ∷ pods) (pod.name ∷ []) (pod.name ∷ [])

abbrev pub names : List Pod → List Text
names [] = []
names (pod ∷ pods) = pod.name ∷ names pods

module _ {ha : Bool} where
  -- With HA every pod is visited.
  pub Visits-eq-names :
      {pods : List Pod} {cs us : List Text} → ha ≡ true → Visits ha pods cs us → cs ≡ names pods
  Visits-eq-names h done = refl
  Visits-eq-names h (passed {pod} v) = ap (λ l. pod.name ∷ l) (Visits-eq-names h v)
  Visits-eq-names h (opened {pod} y e v) = ap (λ l. pod.name ∷ l) (Visits-eq-names h v)
  Visits-eq-names h (ended y e) = cc

  -- Without HA at most one pod is unsealed.
  pub length-Visits :
      {pods : List Pod} {cs us : List Text} → ha ≡ false → Visits ha pods cs us → length us ≤ 1
  length-Visits h done = omega arith
  length-Visits h (passed v) = length-Visits h v
  length-Visits h (opened y e v) = cc
  length-Visits h (ended y e) = omega arith

  -- The pods are visited in order, from the first on.
  pub Visits-IsPrefix :
      {pods : List Pod} {cs us : List Text}
      → Visits ha pods cs us
      → (rest : List Text) × (names pods ≡ cs ++ rest)
  Visits-IsPrefix done = ([], refl)
  Visits-IsPrefix (passed {pod} v) =
      let (rest, e) = Visits-IsPrefix v in (rest, ap (λ l. pod.name ∷ l) e)
  Visits-IsPrefix (opened {pod} y e v) =
      let (rest, e) = Visits-IsPrefix v in (rest, ap (λ l. pod.name ∷ l) e)
  Visits-IsPrefix (ended {pods} y e) = (names pods, refl)

  -- The loop stops before the last pod only behind one that was unsealed, without HA.
  pub Visits-stop :
      {pods : List Pod} {cs us : List Text}
      → Visits ha pods cs us
      → (cs ≡ names pods) ⊎ ((ha ≡ false) × (length us ≡ 1))
  Visits-stop done = inl refl
  Visits-stop (passed {pod} v) = elim (Visits-stop v) [
    | inl e ↦ inl (ap (λ l. pod.name ∷ l) e)
    | inr s ↦ inr s
  ]
  Visits-stop (opened y e v) = ground (arith, Visits-eq-names e v)
  Visits-stop (ended y e) = inr (e, refl)

  -- Without HA either no name is unsealed and every pod is visited, or the one that is unsealed is the
  -- last that is visited.
  pub Visits-ends :
      {pods : List Pod} {cs us : List Text}
      → ha ≡ false
      → Visits ha pods cs us
      → ((us ≡ []) × (cs ≡ names pods))
        ⊎ ((earlier : List Text) × (name : Text) × (us ≡ name ∷ []) × (cs ≡ earlier ++ name ∷ []))
  Visits-ends h done = inl (refl, refl)
  Visits-ends h (passed {pod} v) = elim (Visits-ends h v) [
    | inl (bare, whole) ↦ inl (bare, ap (λ l. pod.name ∷ l) whole)
    | inr (earlier, name, only, last) ↦
        inr (pod.name ∷ earlier, name, only, ap (λ l. pod.name ∷ l) last)
  ]
  Visits-ends h (opened y e v) = absurd (true_not_false (sym e ∙ h))
    where
      true_not_false : true ≢ false
      true_not_false k = cc
  Visits-ends h (ended {pod} y e) = inr ([], pod.name, refl, refl)

  -- A name that is counted as unsealed is that of a ready pod of the list.
  pub Visits-ready :
      {pods : List Pod} {cs us : List Text} {name : Text}
      → Visits ha pods cs us
      → Memᴰ name us
      → (pod : Pod) × Memᴰ pod pods × (is_pod_ready pod ≡ true) × (name ≡ pod.name) × Memᴰ name cs
  Visits-ready done m = elim m [ ]
  Visits-ready (passed v) m =
      let (pod, listed, y, e, c) = Visits-ready v m in (pod, Memᴰ.tail listed, y, e, Memᴰ.tail c)
  Visits-ready (opened {pod} y e v) (Memᴰ.head n) = (pod, Memᴰ.head refl, y, n, Memᴰ.head n)
  Visits-ready (opened y e v) (Memᴰ.tail m) =
      let (pod, listed, y, e, c) = Visits-ready v m in (pod, Memᴰ.tail listed, y, e, Memᴰ.tail c)
  Visits-ready (ended {pod} y e) (Memᴰ.head n) = (pod, Memᴰ.head refl, y, n, Memᴰ.head n)
  Visits-ready (ended y e) (Memᴰ.tail m) = elim m [ ]
