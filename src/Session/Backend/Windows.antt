-- ===== src/Session/Backend/Windows.antt =====
-- The window of src/oneops/session/backend.py, which keeps the newest events.
use one_ops_next_gen.Prelude.{
  ℕ, zero, suc, ◌+◌, ◌-◌, ◌≤◌, List, [], ◌∷◌, ◌++◌, length, length-append, ◌≡◌, refl, sym, ap, ◌∙◌,
  arith,
}
use one_ops_next_gen.Session.Backend.{drop, newest}

module _ {ℓ} {A : Type ℓ} where
  length-drop : (n : ℕ) (xs : List A) → length (drop n xs) ≡ length xs - n
  length-drop zero xs = omega arith
  length-drop (suc n) [] = omega arith
  length-drop (suc n) (x ∷ xs) = omega (arith, length-drop n xs)

  drop_nil : (n : ℕ) → drop {A = A} n [] ≡ []
  drop_nil zero = refl
  drop_nil (suc n) = refl

  drop-drop : (m n : ℕ) (xs : List A) → drop m (drop n xs) ≡ drop (n + m) xs
  drop-drop m zero xs = ap (λ i. drop i xs) (omega arith)
  drop-drop m (suc n) [] = drop_nil m ∙ sym (drop_nil (suc n + m))
  drop-drop m (suc n) (x ∷ xs) =
      drop-drop m n xs ∙ ap (λ i. drop i (x ∷ xs)) {x = suc (n + m)} (omega arith)

  drop-append : (n : ℕ) (xs ys : List A) → n ≤ length xs → drop n (xs ++ ys) ≡ drop n xs ++ ys
  drop-append zero xs ys h = refl
  drop-append (suc n) [] ys h = absurd (omega arith)
  drop-append (suc n) (x ∷ xs) ys h = drop-append n xs ys (omega arith)

  pub newest-append :
      (n : ℕ) (xs : List A) (x : A) → newest n (newest n xs ++ (x ∷ [])) ≡ newest n (xs ++ (x ∷ []))
  unfolding newest
  newest-append n xs x =
      let m : ℕ = length xs - n in
      let split : drop m (xs ++ (x ∷ [])) ≡ drop m xs ++ (x ∷ []) =
        drop-append m xs (x ∷ []) (omega arith) in
      let whole : length (xs ++ (x ∷ [])) ≡ length xs + 1 = length-append xs (x ∷ []) in
      let part : length (drop m xs ++ (x ∷ [])) ≡ length xs - m + 1 =
        rw (length-append, length-drop) refl in
      rw (part, whole, ← split, drop-drop) (ap (λ i. drop i (xs ++ (x ∷ []))) (omega arith))
