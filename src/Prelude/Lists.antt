-- ===== src/Prelude/Lists.antt =====
-- Lists measured by native numbers and searched by Boolean tests.
use Prim.Native.Nat.{ℕ, suc, ◌+◌}
use Prim.Native.String.{String}
use mathlib.Core.Path.{◌≡◌, refl, sym, ap, ◌∙◌}
use mathlib.Core.Logic.{◌⊎◌, inl, inr}
use mathlib.Core.Bool.{Bool, true, false, ◌&&◌, ◌||◌}
use one_ops_next_gen.Prelude.Tests.{Bool-cases, if◌then◌else◌}
use mathlib.Core.List.{List, [], ◌∷◌, ◌++◌, Memᴰ}
use native.Mathlib.Omega.{arith}
use text.Mathlib.Text.{◌==◌}
use text.Mathlib.TextEquality.{eq_iff}

-- Two lists, entry by entry.
pub data Rows {ℓ ℓ'} {A : Type ℓ} {B : Type ℓ'} (R : A → B → Type 0)
    : List A → List B → Type (ℓ ⊔ ℓ') where
  nil : Rows R [] []
  cons :
      {a : A} {b : B} {xs : List A} {ys : List B} → R a b → Rows R xs ys → Rows R (a ∷ xs) (b ∷ ys)

module _ {ℓ} {A : Type ℓ} where
  abbrev pub length : List A → ℕ
  length [] = 0
  length (x ∷ xs) = suc (length xs)

  pub length-append : (xs ys : List A) → length (xs ++ ys) ≡ length xs + length ys
  length-append [] ys = omega arith
  length-append (x ∷ xs) ys = omega (arith, length-append xs ys)

  -- any(p(x) for x in xs), all(p(x) for x in xs), [x for x in xs if p(x)]
  abbrev pub any : (A → Bool) → List A → Bool
  any p [] = false
  any p (x ∷ xs) = p x || any p xs

  abbrev pub all : (A → Bool) → List A → Bool
  all p [] = true
  all p (x ∷ xs) = p x && all p xs

  abbrev pub filter : (A → Bool) → List A → List A
  filter p [] = []
  filter p (x ∷ xs) = let rest = filter p xs in if p x then x ∷ rest else rest

  pub all-mem : (p : A → Bool) {x : A} {xs : List A} → Memᴰ x xs → all p xs ≡ true → p x ≡ true
  all-mem p (Memᴰ.head e) h = ground (arith, ap p e)
  all-mem p (Memᴰ.tail m) h = all-mem p m (ground arith)

  pub any-mem : (p : A → Bool) {x : A} {xs : List A} → Memᴰ x xs → p x ≡ true → any p xs ≡ true
  any-mem p (Memᴰ.head e) h = ground (arith, ap p e)
  any-mem p (Memᴰ.tail m) h = ground (arith, any-mem p m h)

  pub any_witness :
      (p : A → Bool) (xs : List A) → any p xs ≡ true → (x : A) × Memᴰ x xs × (p x ≡ true)
  any_witness p [] h = absurd (ground arith)
  any_witness p (x ∷ xs) h = elim (Bool-cases (p x)) [
    | inl e ↦ (x, Memᴰ.head refl, e)
    | inr e ↦ let (y, m, q) = any_witness p xs (ground arith) in (y, Memᴰ.tail m, q)
  ]

  pub all_intro :
      (p : A → Bool) (xs : List A) → ((x : A) → Memᴰ x xs → p x ≡ true) → all p xs ≡ true
  all_intro p [] h = refl
  all_intro p (x ∷ xs) h =
      ground (arith, h x (Memᴰ.head refl), all_intro p xs (λ y m. h y (Memᴰ.tail m)))

  pub Memᴰ-cons : {x y : A} {ys : List A} → Memᴰ x (y ∷ ys) → (x ≡ y) ⊎ Memᴰ x ys
  Memᴰ-cons (Memᴰ.head e) = inl e
  Memᴰ-cons (Memᴰ.tail m) = inr m

  pub mem-filter :
      (p : A → Bool) (x : A) (xs : List A) → Memᴰ x (filter p xs) → Memᴰ x xs × (p x ≡ true)
  mem-filter p x [] m = elim m [ ]
  mem-filter p x (y ∷ ys) m = elim (Bool-cases (p y)) [
    | inl e ↦ elim (Memᴰ-cons (rw (e, filter) at m)) [
      | inl same ↦ (Memᴰ.head same, ap p same ∙ e)
      | inr n ↦ let (n', q) = mem-filter p x ys n in (Memᴰ.tail n', q)
    ]
    | inr e ↦ let (n, q) = mem-filter p x ys (rw (e, filter) at m) in (Memᴰ.tail n, q)
  ]

  pub mem-filter_of_mem :
      (p : A → Bool) (x : A) (xs : List A) → Memᴰ x xs → p x ≡ true → Memᴰ x (filter p xs)
  mem-filter_of_mem p x [] m h = elim m [ ]
  mem-filter_of_mem p x (y ∷ ys) m h = elim (Bool-cases (p y)) [
    | inl e ↦ rw e (elim (Memᴰ-cons m) [
      | inl same ↦ Memᴰ.head same
      | inr n ↦ Memᴰ.tail (mem-filter_of_mem p x ys n h)
    ])
    | inr e ↦
        rw e
          (elim (Memᴰ-cons m) [ inl same ↦ cc (ap p same) | inr n ↦ mem-filter_of_mem p x ys n h ])
  ]

  pub mem-append : (x : A) (xs ys : List A) → Memᴰ x (xs ++ ys) → Memᴰ x xs ⊎ Memᴰ x ys
  mem-append x [] ys m = inr m
  mem-append x (z ∷ xs) ys m = elim (Memᴰ-cons m) [
    | inl e ↦ inl (Memᴰ.head e)
    | inr n ↦ elim (mem-append x xs ys n) [ inl a ↦ inl (Memᴰ.tail a) | inr b ↦ inr b ]
  ]

-- x in xs
abbrev pub contains : String → List String → Bool
contains x xs = any (λ y. y == x) xs

pub mem_of_contains : (x : String) (xs : List String) → contains x xs ≡ true → Memᴰ x xs
mem_of_contains x [] h = absurd (ground arith)
mem_of_contains x (y ∷ ys) h = elim (Bool-cases (y == x)) [
  | inl e ↦ Memᴰ.head (sym ((eq_iff y x).0 e))
  | inr e ↦ Memᴰ.tail (mem_of_contains x ys (ground arith))
]

pub contains_of_mem : {x : String} {xs : List String} → Memᴰ x xs → contains x xs ≡ true
contains_of_mem {x} m = any-mem (λ y. y == x) m ((eq_iff x x).1 refl)
