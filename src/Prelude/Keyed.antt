-- ===== src/Prelude/Keyed.antt =====
-- Python's `dict` whose keys are pairs of texts, such as a tenant and an id of its own.
use Prim.Native.String.{String}
use mathlib.Core.Path.{◌≡◌, refl, ap}
use mathlib.Core.Logic.{◌↔◌, inl, inr}
use mathlib.Core.Bool.{Bool, true, false, ◌&&◌}
use mathlib.Core.Option.{Option, none, some}
use mathlib.Core.List.{List, [], ◌∷◌}
use native.Mathlib.Omega.{arith}
use text.Mathlib.Text.{◌==◌}
use text.Mathlib.TextEquality.{eq_iff}
use one_ops_next_gen.Prelude.Tests.{if◌then◌else◌, Bool-cases}

abbrev pub Key : Type 0
Key = String × String

abbrev pub key_eq : Key → Key → Bool
key_eq (a, b) (c, d) = a == c && b == d

pub key_eq_iff : (j k : Key) → (key_eq j k ≡ true) ↔ (j ≡ k)
key_eq_iff (a, b) (c, d) = (
  λ h. cc ((eq_iff a c).0 (ground arith), (eq_iff b d).0 (ground arith)),
  λ e.
      ground
        (arith, (eq_iff a c).1 (ap (λ (k : Key). k.0) e), (eq_iff b d).1 (ap (λ (k : Key). k.1) e)),
)

abbrev pub Table {ℓ} : Type ℓ → Type ℓ
Table V = List (Key × V)

module _ {ℓ} {V : Type ℓ} where
  -- d.get(k)
  unfoldable pub find : Key → Table V → Option V
  find k [] = none
  find k ((j, v) ∷ d) = if key_eq j k then some v else find k d

  -- d[k] = v
  unfoldable pub store : Key → V → Table V → Table V
  store k v [] = (k, v) ∷ []
  store k v ((j, w) ∷ d) =
      let rest = store k v d in if key_eq j k then (j, v) ∷ d else (j, w) ∷ rest

  -- d.pop(k, None)
  unfoldable pub remove : Key → Table V → Table V
  remove k [] = []
  remove k ((j, v) ∷ d) = let rest = remove k d in if key_eq j k then rest else (j, v) ∷ rest

  pub find-store :
      (k j : Key) (v : V) (d : Table V)
      → find j (store k v d) ≡ (if key_eq k j then some v else find j d)
  unfolding find store
  find-store k j v [] = refl
  find-store k j v ((i, w) ∷ d) =
      let ih = find-store k j v d in
      elim (Bool-cases (key_eq i k)) [
        | inl e ↦ let same : i ≡ k = (key_eq_iff i k).0 e in rw (e, find) (rw same (ground arith))
        | inr e ↦
            rw (e, find, ih)
              (elim (Bool-cases (key_eq k j)) [
                | inl same ↦
                    let other : key_eq i j ≡ false = rw (← (key_eq_iff k j).0 same) e in
                    rw (same, other)
                | inr other ↦ rw other
              ])
      ]

  pub find-remove :
      (k j : Key) (d : Table V) → find j (remove k d) ≡ (if key_eq k j then none else find j d)
  unfolding find remove
  find-remove k j [] = ground arith
  find-remove k j ((i, w) ∷ d) =
      let ih = find-remove k j d in
      elim (Bool-cases (key_eq i k)) [
        | inl e ↦ let same : i ≡ k = (key_eq_iff i k).0 e in rw (e, ih) (rw same (ground arith))
        | inr e ↦
            rw (e, find, ih)
              (elim (Bool-cases (key_eq k j)) [
                | inl same ↦
                    let other : key_eq i j ≡ false = rw (← (key_eq_iff k j).0 same) e in
                    rw (same, other)
                | inr other ↦ rw other
              ])
      ]

  pub find-store_self : (k : Key) (v : V) (d : Table V) → find k (store k v d) ≡ some v
  find-store_self k v d = rw (find-store, (key_eq_iff k k).1 refl)

  pub find-store_other :
      (k j : Key) (v : V) (d : Table V) → key_eq k j ≡ false → find j (store k v d) ≡ find j d
  find-store_other k j v d e = rw (find-store, e)
