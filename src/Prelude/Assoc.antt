-- ===== src/Prelude/Assoc.antt =====
-- Python's `dict` with text keys, as an association list in insertion order.
use Prim.Native.String.{String}
use mathlib.Core.Path.{◌≡◌, refl}
use mathlib.Core.Logic.{◌⊎◌, inl, inr}
use mathlib.Core.Option.{Option, none, some}
use mathlib.Core.List.{List, [], ◌∷◌}
use native.Mathlib.Omega.{arith}
use text.Mathlib.Text.{◌==◌}
use text.Mathlib.TextEquality.{eq_iff}
use one_ops_next_gen.Prelude.Tests.{if◌then◌else◌, Bool-cases}

abbrev pub Dict {ℓ} : Type ℓ → Type ℓ
Dict V = List (String × V)

module _ {ℓ} {V : Type ℓ} where
  -- d.get(k)
  unfoldable pub lookup : String → Dict V → Option V
  lookup k [] = none
  lookup k ((j, v) ∷ d) = if j == k then some v else lookup k d

  -- d[k] = v: an old key keeps its place, a new one comes last.
  unfoldable pub insert : String → V → Dict V → Dict V
  insert k v [] = (k, v) ∷ []
  insert k v ((j, w) ∷ d) = if j == k then (j, v) ∷ d else (j, w) ∷ insert k v d

  -- d.pop(k, None)
  unfoldable pub erase : String → Dict V → Dict V
  erase k [] = []
  erase k ((j, v) ∷ d) = let rest = erase k d in if j == k then rest else (j, v) ∷ rest

  pub lookup-insert :
      (k j : String) (v : V) (d : Dict V)
      → lookup j (insert k v d) ≡ (if k == j then some v else lookup j d)
  unfolding lookup insert
  lookup-insert k j v [] = refl
  lookup-insert k j v ((i, w) ∷ d) =
      ground (arith, eq_iff k j, eq_iff i k, eq_iff i j, lookup-insert k j v d)

  pub lookup-erase :
      (k j : String) (d : Dict V) → lookup j (erase k d) ≡ (if k == j then none else lookup j d)
  unfolding lookup erase
  lookup-erase k j [] = ground arith
  lookup-erase k j ((i, w) ∷ d) =
      ground (arith, eq_iff k j, eq_iff i k, eq_iff i j, lookup-erase k j d)

  pub lookup-insert_self : (k : String) (v : V) (d : Dict V) → lookup k (insert k v d) ≡ some v
  lookup-insert_self k v d = rw (lookup-insert, (eq_iff k k).1 refl)

  -- What is found after a write is what was written there, or what was there before.
  pub lookup-insert_cases :
      (k j : String) (v : V) (d : Dict V) {w : V}
      → lookup j (insert k v d) ≡ some w
      → (k ≡ j) × (v ≡ w) ⊎ (lookup j d ≡ some w)
  lookup-insert_cases k j v d h = elim (Bool-cases (k == j)) [
    | inl same ↦ inl ((eq_iff k j).0 same, cc (rw (lookup-insert, same) at h))
    | inr other ↦ inr (rw (lookup-insert, other) at h)
  ]

  -- What is found after a removal was there before.
  pub lookup-erase_cases :
      (k j : String) (d : Dict V) {w : V} → lookup j (erase k d) ≡ some w → lookup j d ≡ some w
  lookup-erase_cases k j d h = elim (Bool-cases (k == j)) [
    | inl same ↦ cc (rw (lookup-erase, same) at h)
    | inr other ↦ rw (lookup-erase, other) at h
  ]

pub ruleset dict_laws = (lookup-insert, lookup-erase)
