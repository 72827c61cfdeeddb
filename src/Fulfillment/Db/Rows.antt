-- ===== src/Fulfillment/Db/Rows.antt =====
-- What an UPDATE of src/oneops/use_cases/uc08_fulfillment/db.py leaves in its table.
use one_ops_next_gen.Prelude.{
  Bool, true, false, List, [], ◌∷◌, some, any, Bool-cases, ◌≡◌, inl, inr, refl, arith,
}
use one_ops_next_gen.Fulfillment.Db.Approvals.{update_rows}

module _ {ℓ} {A : Type ℓ} (test : A → Bool) (set : A → A) where
  -- No row passes a test that no written row passes, when no other row did.
  pub any-update_rows :
      (p q : A → Bool) (rows : List A)
      → ((r : A) → p (set r) ≡ false)
      → ((r : A) → test r ≡ false → p r ≡ true → q r ≡ true)
      → any q rows ≡ false
      → any p (update_rows test set rows).0 ≡ false
  unfolding update_rows
  any-update_rows p q [] written other e = refl
  any-update_rows p q (r ∷ rs) written other e =
      let ih = any-update_rows p q rs written other (ground arith) in
      elim (Bool-cases (test r)) [
        | inl t ↦ rw (t, written r) ih
        | inr t ↦ elim (Bool-cases (p r)) [
          | inl h ↦ let same = other r t h in absurd (ground arith)
          | inr h ↦ rw (t, h) ih
        ]
      ]

  -- A row is returned only when one passes the test.
  pub update_rows_found :
      (rows : List A) {x : A} → (update_rows test set rows).1 ≡ some x → any test rows ≡ true
  unfolding update_rows
  update_rows_found [] h = cc
  update_rows_found (r ∷ rs) h = elim (Bool-cases (test r)) [
    | inl t ↦ rw t refl
    | inr t ↦ rw t (update_rows_found rs (rw t at h))
  ]
