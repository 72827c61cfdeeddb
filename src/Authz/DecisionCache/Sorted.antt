-- ===== src/Authz/DecisionCache/Sorted.antt =====
-- `sorted` keeps the members of a list, so the key of decision_cache.py forgets only their order.
use mathlib.Core.List.{Perm, IsChain}
use mathlib.Core.List.Perm
use one_ops_next_gen.Prelude.{
  true, false, Bool, List, [], ◌∷◌, ◌≡◌, ◌↔◌, ◌⊎◌, inl, inr, refl, sym, Memᴰ, Memᴰ-cons, Bool-cases,
  subst,
}
use one_ops_next_gen.Authz.DecisionCache.{insert_sorted, sorted}

module _ {ℓ} {A : Type ℓ} (le : A → A → Bool) where
  mem-insert_sorted :
      (a x : A) (ys : List A) → Memᴰ a (insert_sorted le x ys) ↔ ((a ≡ x) ⊎ Memᴰ a ys)
  unfolding insert_sorted
  mem-insert_sorted a x [] =
      (λ m. Memᴰ-cons m, λ h. elim h [ inl e ↦ Memᴰ.head e | inr m ↦ Memᴰ.tail m ])
  mem-insert_sorted a x (y ∷ ys) = elim (Bool-cases (le x y)) [
    | inl e ↦ (
      λ m. Memᴰ-cons (rw (e, insert_sorted) at m),
      λ h. rw (e, insert_sorted) (elim h [ inl s ↦ Memᴰ.head s | inr m ↦ Memᴰ.tail m ]),
    )
    | inr e ↦
        let (to, from) = mem-insert_sorted a x ys in
        (
          λ m. elim (Memᴰ-cons (rw (e, insert_sorted) at m)) [
            | inl s ↦ inr (Memᴰ.head s)
            | inr n ↦ elim (to n) [ inl s ↦ inl s | inr k ↦ inr (Memᴰ.tail k) ]
          ],
          λ h.
              rw (e, insert_sorted)
                (elim h [
                  | inl s ↦ Memᴰ.tail (from (inl s))
                  | inr m ↦ elim (Memᴰ-cons m) [
                    | inl s ↦ Memᴰ.head s
                    | inr k ↦ Memᴰ.tail (from (inr k))
                  ]
                ]),
        )
  ]

  pub mem-sorted : (a : A) (xs : List A) → Memᴰ a (sorted le xs) ↔ Memᴰ a xs
  unfolding sorted
  mem-sorted a [] = (λ m. m, λ m. m)
  mem-sorted a (x ∷ xs) =
      let (to, from) = mem-insert_sorted a x (sorted le xs) in
      let (to', from') = mem-sorted a xs in
      (
        λ m. elim (to m) [ inl e ↦ Memᴰ.head e | inr n ↦ Memᴰ.tail (to' n) ],
        λ m. from (elim (Memᴰ-cons m) [ inl e ↦ inl e | inr n ↦ inr (from' n) ]),
      )

  -- Lists that sort alike have the same members.
  pub mem-eq_sorted :
      (xs ys : List A) → sorted le xs ≡ sorted le ys → (a : A) → Memᴰ a xs → Memᴰ a ys
  mem-eq_sorted xs ys e a m = (mem-sorted a ys).0 (subst (Memᴰ a) e ((mem-sorted a xs).1 m))

  pub nil-eq_sorted : (xs ys : List A) → sorted le xs ≡ sorted le ys → xs ≡ [] → ys ≡ []
  nil-eq_sorted xs [] e h = refl
  nil-eq_sorted xs (y ∷ ys) e h =
      elim (rw h at (mem-eq_sorted (y ∷ ys) xs (sym e) y (Memᴰ.head refl))) [ ]

  insert_sorted-perm : (x : A) (ys : List A) → Perm (insert_sorted le x ys) (x ∷ ys)
  unfolding insert_sorted
  insert_sorted-perm x [] = Perm.rfl
  insert_sorted-perm x (y ∷ ys) = elim (Bool-cases (le x y)) [
    | inl e ↦ rw (e, insert_sorted) Perm.rfl
    | inr e ↦
        rw (e, insert_sorted)
          (Perm.trans (Perm.cons y (insert_sorted-perm x ys)) (Perm.swap x y ys))
  ]

  pub sorted-perm : (xs : List A) → Perm (sorted le xs) xs
  unfolding sorted
  sorted-perm [] = Perm.rfl
  sorted-perm (x ∷ xs) =
      Perm.trans (insert_sorted-perm x (sorted le xs)) (Perm.cons x (sorted-perm xs))

  module _ (total : (a b : A) → le a b ≡ false → le b a ≡ true) where
    abbrev IsAscending : List A → Type ℓ
    IsAscending = IsChain (λ a b. le a b ≡ true)

    insert_below :
        (x y : A) (ys : List A)
        → le y x ≡ true
        → IsAscending (y ∷ ys)
        → IsAscending (insert_sorted le x ys)
        → IsAscending (y ∷ insert_sorted le x ys)
    unfolding insert_sorted
    insert_below x y [] below s s' = IsChain.cons-cons below s'
    insert_below x y (z ∷ zs) below (IsChain.cons-cons r c) s' = elim (Bool-cases (le x z)) [
      | inl e ↦ rw (e, insert_sorted) (IsChain.cons-cons below (rw (e, insert_sorted) at s'))
      | inr e ↦ rw (e, insert_sorted) (IsChain.cons-cons r (rw (e, insert_sorted) at s'))
    ]

    insert_sorted-IsAscending :
        (x : A) (ys : List A) → IsAscending ys → IsAscending (insert_sorted le x ys)
    unfolding insert_sorted
    insert_sorted-IsAscending x [] s = IsChain.singleton x
    insert_sorted-IsAscending x (y ∷ ys) s = elim (Bool-cases (le x y)) [
      | inl e ↦ rw (e, insert_sorted) (IsChain.cons-cons e s)
      | inr e ↦
          rw (e, insert_sorted)
            (insert_below x y ys (total x y e) s (insert_sorted-IsAscending x ys (tail_of y ys s)))
    ]
      where
        tail_of : (a : A) (bs : List A) → IsAscending (a ∷ bs) → IsAscending bs
        tail_of a [] c = IsChain.nil
        tail_of a (b ∷ bs) (IsChain.cons-cons r c) = c

    pub sorted-IsAscending : (xs : List A) → IsChain (λ a b. le a b ≡ true) (sorted le xs)
    unfolding sorted
    sorted-IsAscending [] = IsChain.nil
    sorted-IsAscending (x ∷ xs) = insert_sorted-IsAscending x (sorted le xs) (sorted-IsAscending xs)
