-- ===== src/Base/Map.antt =====
-- Go maps as association lists: `m[k]` with its second result, `m[k] = v` and `delete(m, k)`.
use proxy_sentinel.Base.Tests.{Eq, Bool-cases, ◌==◌, if◌then◌else◌}
use mathlib.Core.Path.{◌≡◌, refl}
use mathlib.Core.Option.{Option, none, some}
use mathlib.Core.List.{List, [], ◌∷◌}
use mathlib.Core.Bool.{Bool}
use mathlib.Core.Logic.{inl, inr}
use native.Mathlib.Omega.{arith}

module _ {ℓ κ} {K : Type ℓ} {V : Type κ} ⦃e : Eq K⦄ where
  unfoldable pub lookup : K → List (K × V) → Option V
  lookup key [] = none
  lookup key ((other, val) ∷ rest) = if other == key then some val else lookup key rest

  unfoldable pub insert : K → V → List (K × V) → List (K × V)
  insert key val [] = (key, val) ∷ []
  insert key val ((other, old) ∷ rest) =
      let rest' = insert key val rest in
      if other == key then (key, val) ∷ rest else (other, old) ∷ rest'

  unfoldable pub erase : K → List (K × V) → List (K × V)
  erase k [] = []
  erase k ((j, w) ∷ m) = let rest = erase k m in if j == k then rest else (j, w) ∷ rest

  pub lookup-insert :
      (key j : K) (val : V) (m : List (K × V))
      → lookup j (insert key val m) ≡ (if key == j then some val else lookup j m)
  unfolding lookup insert
  lookup-insert key j val [] = refl
  lookup-insert key j val ((other, old) ∷ m) =
      ground (
        arith,
        e.test_iff key j,
        e.test_iff other key,
        e.test_iff other j,
        lookup-insert key j val m,
      )

  pub lookup-erase :
      (k j : K) (m : List (K × V)) → lookup j (erase k m) ≡ (if k == j then none else lookup j m)
  unfolding lookup erase
  lookup-erase k j [] = ground arith
  lookup-erase k j ((i, w) ∷ m) =
      ground (arith, e.test_iff k j, e.test_iff i k, e.test_iff i j, lookup-erase k j m)

  -- `for k, v := range m { if !keep(v) { delete(m, k) } }`
  unfoldable pub keep_values : (V → Bool) → List (K × V) → List (K × V)
  keep_values p [] = []
  keep_values p ((k, v) ∷ m) = let rest = keep_values p m in if p v then (k, v) ∷ rest else rest

  -- No key stands twice, as in every map that is built by `insert`.
  unfoldable pub IsUnique : List (K × V) → Type κ
  IsUnique [] = Unit
  IsUnique ((k, v) ∷ m) = (lookup k m ≡ none) × IsUnique m

  pub insert-IsUnique : (k : K) (v : V) (m : List (K × V)) → IsUnique m → IsUnique (insert k v m)
  unfolding IsUnique insert
  insert-IsUnique k v [] u = (unfold lookup in refl, tt)
  insert-IsUnique k v ((j, w) ∷ m) (fresh, u) = elim (Bool-cases (j == k)) [
    | inl same ↦ rw same (ground (arith, e.test_iff j k, same, fresh), u)
    | inr other ↦ rw other (
      ground (arith, other, e.test_iff j k, e.test_iff k j, fresh, lookup-insert k j v m),
      insert-IsUnique k v m u,
    )
  ]

  pub erase-IsUnique : (k : K) (m : List (K × V)) → IsUnique m → IsUnique (erase k m)
  unfolding IsUnique erase
  erase-IsUnique k [] u = tt
  erase-IsUnique k ((j, w) ∷ m) (fresh, u) = elim (Bool-cases (j == k)) [
    | inl same ↦ rw same (erase-IsUnique k m u)
    | inr other ↦ rw other (ground (arith, fresh, lookup-erase k j m), erase-IsUnique k m u)
  ]

  pub lookup-keep_values :
      (p : V → Bool) (k : K) (m : List (K × V))
      → IsUnique m
      → lookup k (keep_values p m)
        ≡ elim (lookup k m) [ none ↦ none | some v ↦ if p v then some v else none ]
  unfolding IsUnique keep_values lookup
  lookup-keep_values p k [] u = refl
  lookup-keep_values p k ((j, v) ∷ m) (fresh, u) =
      ground (arith, e.test_iff j k, lookup-keep_values p k m u)

  pub keep_values-IsUnique :
      (p : V → Bool) (m : List (K × V)) → IsUnique m → IsUnique (keep_values p m)
  unfolding IsUnique keep_values
  keep_values-IsUnique p [] u = tt
  keep_values-IsUnique p ((j, v) ∷ m) (fresh, u) = elim (Bool-cases (p v)) [
    | inl kept ↦
        rw kept (ground (arith, fresh, lookup-keep_values p j m u), keep_values-IsUnique p m u)
    | inr dropped ↦ rw dropped (keep_values-IsUnique p m u)
  ]
