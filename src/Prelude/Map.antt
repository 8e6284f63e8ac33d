-- ===== src/Prelude/Map.antt =====
-- Go's maps as association lists. The order of the list is the order of one iteration, which the
-- language leaves open; a missing key reads as `none`.
use mathlib.Core.Path.{◌≡◌, refl, sym}
use mathlib.Core.List.{List, [], ◌∷◌}
use mathlib.Core.Option.{Option, none, some}
use native.Mathlib.Omega.{arith}
use gitlab_procs_exporter.Prelude.Tests.{if◌then◌else◌, Bool-cases}
use gitlab_procs_exporter.Prelude.Lists.{Member}
use mathlib.Core.Logic.{◌≢◌, inl, inr}
use gitlab_procs_exporter.Prelude.Equality.{Eq, ◌==◌}

abbrev pub Map {ℓ κ} : Type ℓ → Type κ → Type (ℓ ⊔ κ)
Map K V = List (K × V)

abbrev pub keys {ℓ κ} : {K : Type ℓ} {V : Type κ} → Map K V → List K
keys [] = []
keys ((k, v) ∷ t) = k ∷ keys t

module _ {ℓ κ} {K : Type ℓ} {V : Type κ} ⦃e : Eq K⦄ where
  -- `v, ok := t[k]`
  unfoldable pub lookup : K → Map K V → Option V
  lookup k [] = none
  lookup k ((i, v) ∷ t) = if i == k then some v else lookup k t

  -- `t[k] = v`
  unfoldable pub insert : K → V → Map K V → Map K V
  insert k v [] = (k, v) ∷ []
  insert k v ((i, u) ∷ t) = if i == k then (k, v) ∷ t else (i, u) ∷ insert k v t

  -- `delete(t, k)`
  unfoldable pub delete : K → Map K V → Map K V
  delete k [] = []
  delete k ((i, u) ∷ t) = let rest = delete k t in if i == k then rest else (i, u) ∷ rest

  pub lookup-insert :
      (k j : K) (v : V) (t : Map K V)
      → lookup j (insert k v t) ≡ (if k == j then some v else lookup j t)
  unfolding lookup insert
  lookup-insert k j v [] = refl
  lookup-insert k j v ((i, w) ∷ t) =
      ground (arith, e.test_iff k j, e.test_iff i k, e.test_iff i j, lookup-insert k j v t)

  pub lookup-delete :
      (k j : K) (t : Map K V) → lookup j (delete k t) ≡ (if k == j then none else lookup j t)
  unfolding lookup delete
  lookup-delete k j [] = ground arith
  lookup-delete k j ((i, w) ∷ t) =
      ground (arith, e.test_iff k j, e.test_iff i k, e.test_iff i j, lookup-delete k j t)

  -- No key stands twice.
  abbrev pub IsDistinct : Map K V → Type κ
  IsDistinct [] = Unit
  IsDistinct ((k, v) ∷ t) = (lookup k t ≡ none) × IsDistinct t

  pub insert-IsDistinct : (k : K) (v : V) (t : Map K V) → IsDistinct t → IsDistinct (insert k v t)
  unfolding insert lookup
  insert-IsDistinct k v [] h = (refl, tt)
  insert-IsDistinct k v ((i, u) ∷ t) h =
      ground
        (arith, e.test_iff i k, e.test_iff k i, insert-IsDistinct k v t h.1, lookup-insert k i v t)

  pub delete-IsDistinct : (k : K) (t : Map K V) → IsDistinct t → IsDistinct (delete k t)
  unfolding delete
  delete-IsDistinct k [] h = tt
  delete-IsDistinct k ((i, u) ∷ t) h =
      ground (arith, e.test_iff k i, delete-IsDistinct k t h.1, lookup-delete k i t)

module _ {ℓ} {K : Type 0} {V : Type ℓ} ⦃e : Eq K⦄ where
  pub lookup-some-Member : (k : K) {v : V} (t : Map K V) → lookup k t ≡ some v → Member k (keys t)
  unfolding lookup
  lookup-some-Member k [] h = cc
  lookup-some-Member k ((i, u) ∷ t) h = elim (Bool-cases (i == k)) [
    | inl same ↦ inl (sym ((e.test_iff i k).0 same))
    | inr other ↦ inr (lookup-some-Member k t (rw other at h))
  ]

  pub Member-lookup-ne-none : (k : K) (t : Map K V) → Member k (keys t) → lookup k t ≢ none
  unfolding lookup
  Member-lookup-ne-none k [] h = absurd h
  Member-lookup-ne-none k ((i, u) ∷ t) h = elim (Bool-cases (i == k)) [
    | inl same ↦ rw same (cc)
    | inr other ↦ elim h [
      | inl here ↦ ground (arith, e.test_iff i k)
      | inr there ↦ rw other (Member-lookup-ne-none k t there)
    ]
  ]
