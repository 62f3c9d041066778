-- ===== src/Base/Dict.antt =====
-- Maps as association lists (std::map and std::unordered_map): a key stands at most once if the
-- list is built by `insert` and `erase`. Iteration order is the order of insertion.
use mathlib.Core.Path.{◌≡◌, refl, subst}
use mathlib.Core.Bool.{Bool}
use mathlib.Core.List.{List, [], ◌∷◌}
use mathlib.Core.Option.{Option, none, some}
use mathlib.Core.Logic.{inl, inr}
use native.Mathlib.Omega.{arith}
use async_uv.Base.Tests.{if◌then◌else◌, Bool-cases}
use async_uv.Base.Lists.{All}
use async_uv.Base.Keys.{Eq, ◌=?◌, =?_refl}

abbrev pub keep_if {κ} : {V : Type κ} → (V → Bool) → Option V → Option V
keep_if p none = none
keep_if p (some v) = if p v then some v else none

module _ {ℓ κ} {K : Type ℓ} {V : Type κ} ⦃e : Eq K⦄ where
  -- `find`
  unfoldable pub lookup : K → List (K × V) → Option V
  lookup k [] = none
  lookup k ((j, v) ∷ m) = if j =? k then some v else lookup k m

  -- `m[k] = v`
  unfoldable pub insert : K → V → List (K × V) → List (K × V)
  insert k v [] = (k, v) ∷ []
  insert k v ((j, w) ∷ m) = if j =? k then (j, v) ∷ m else (j, w) ∷ insert k v m

  -- `erase(k)`
  unfoldable pub erase : K → List (K × V) → List (K × V)
  erase k [] = []
  erase k ((j, w) ∷ m) = if j =? k then erase k m else (j, w) ∷ erase k m

  pub lookup-insert :
      (k j : K) (v : V) (m : List (K × V))
      → lookup j (insert k v m) ≡ (if k =? j then some v else lookup j m)
  unfolding lookup insert
  lookup-insert k j v [] = refl
  lookup-insert k j v ((i, w) ∷ m) =
      ground (arith, e.beq_iff k j, e.beq_iff i k, e.beq_iff i j, lookup-insert k j v m)

  pub lookup-erase :
      (k j : K) (m : List (K × V)) → lookup j (erase k m) ≡ (if k =? j then none else lookup j m)
  unfolding lookup erase
  lookup-erase k j [] = ground arith
  lookup-erase k j ((i, w) ∷ m) =
      ground (arith, e.beq_iff k j, e.beq_iff i k, e.beq_iff i j, lookup-erase k j m)

  pub lookup-insert_self : (k : K) (v : V) (m : List (K × V)) → lookup k (insert k v m) ≡ some v
  lookup-insert_self k v m = simp (lookup-insert, =?_refl)

  -- A loop that erases the entries whose value fails a test.
  unfoldable pub retain : (V → Bool) → List (K × V) → List (K × V)
  retain p [] = []
  retain p ((j, w) ∷ m) = if p w then (j, w) ∷ retain p m else retain p m

  -- No key stands twice.
  abbrev pub Distinct : List (K × V) → Type κ
  Distinct [] = Unit
  Distinct ((j, w) ∷ m) = (lookup j m ≡ none) × Distinct m

  pub lookup-retain :
      (p : V → Bool) (k : K) (m : List (K × V))
      → Distinct m
      → lookup k (retain p m) ≡ keep_if p (lookup k m)
  unfolding lookup retain
  lookup-retain p k [] d = refl
  lookup-retain p k ((j, w) ∷ m) d = ground (arith, e.beq_iff j k, lookup-retain p k m d.1)

  pub insert-Distinct : (k : K) (v : V) (m : List (K × V)) → Distinct m → Distinct (insert k v m)
  unfolding insert lookup
  insert-Distinct k v [] d = (refl, tt)
  insert-Distinct k v ((j, w) ∷ m) d =
      ground (arith, e.beq_iff j k, e.beq_iff k j, lookup-insert k j v m, insert-Distinct k v m d.1)

  pub retain-Distinct : (p : V → Bool) (m : List (K × V)) → Distinct m → Distinct (retain p m)
  unfolding retain
  retain-Distinct p [] d = tt
  retain-Distinct p ((j, w) ∷ m) d =
      ground (arith, lookup-retain p j m d.1, retain-Distinct p m d.1)

  -- What holds of every value under a key.
  pub insert-All :
      (P : V → Type κ) (k : K) (v : V) (m : List (K × V))
      → P v
      → All (λ b. P b.1) m
      → All (λ b. P b.1) (insert k v m)
  unfolding insert
  insert-All P k v [] pv h = (pv, tt)
  insert-All P k v ((j, w) ∷ m) pv h = elim (Bool-cases (j =? k)) [
    | inl same ↦ rw same (pv, h.1)
    | inr other ↦ rw other (h.0, insert-All P k v m pv h.1)
  ]

  pub lookup-All :
      (P : V → Type κ) (k : K) {v : V} (m : List (K × V))
      → All (λ b. P b.1) m
      → lookup k m ≡ some v
      → P v
  unfolding lookup
  lookup-All P k [] h q = cc
  lookup-All P k {v} ((j, w) ∷ m) h q = elim (Bool-cases (j =? k)) [
    | inl same ↦ let q' : w ≡ v = ground (arith, same) in subst P q' h.0
    | inr other ↦ lookup-All P k m h.1 (rw (other, lookup) at q)
  ]

  pub retain-All :
      (P : V → Type κ) (p : V → Bool) (m : List (K × V))
      → All (λ b. P b.1) m
      → All (λ b. P b.1) (retain p m)
  unfolding retain
  retain-All P p [] h = tt
  retain-All P p ((j, w) ∷ m) h = elim (Bool-cases (p w)) [
    | inl kept ↦ rw kept (h.0, retain-All P p m h.1)
    | inr gone ↦ rw gone (retain-All P p m h.1)
  ]
