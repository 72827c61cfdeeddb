-- ===== src/Prelude/Texts.antt =====
-- The order of texts is total.
use Prim.Native.Nat.compare as compare_ℕ
use Prim.Native.String.compare
use Prim.Native.Nat.{ℕ, zero, suc, Ordering, compare as compare_ℕ}
use Prim.Native.Char.{code}
use Prim.Native.String.{String, [], ◌∷◌, then, compare}
use text.Mathlib.Text.{is_le}
use mathlib.Core.Path.{◌≡◌, refl, sym, ap, ap₂, ◌∙◌}
use mathlib.Core.Bool.{true, false, false≢true}

abbrev flip : Ordering → Ordering
flip Ordering.lt = Ordering.gt
flip Ordering.eq = Ordering.eq
flip Ordering.gt = Ordering.lt

compare_flip : (m n : ℕ) → compare_ℕ n m ≡ flip (compare_ℕ m n)
compare_flip zero zero = compare_ℕ.zero-zero ∙ sym (ap flip compare_ℕ.zero-zero)
compare_flip zero (suc n) = compare_ℕ.suc-zero n ∙ sym (ap flip (compare_ℕ.zero-suc n))
compare_flip (suc m) zero = compare_ℕ.zero-suc m ∙ sym (ap flip (compare_ℕ.suc-zero m))
compare_flip (suc m) (suc n) =
    compare_ℕ.suc-suc n m ∙ compare_flip m n ∙ sym (ap flip (compare_ℕ.suc-suc m n))

then-flip : (o p : Ordering) → then (flip o) (flip p) ≡ flip (then o p)
then-flip Ordering.lt p = refl
then-flip Ordering.eq p = refl
then-flip Ordering.gt p = refl

text_flip : (s t : String) → compare t s ≡ flip (compare s t)
text_flip [] [] = compare.nil-nil ∙ sym (ap flip compare.nil-nil)
text_flip [] (d ∷ t) = compare.cons-nil d t ∙ sym (ap flip (compare.nil-cons d t))
text_flip (c ∷ s) [] = compare.nil-cons c s ∙ sym (ap flip (compare.cons-nil c s))
text_flip (c ∷ s) (d ∷ t) =
    compare.cons-cons d c t s
    ∙ ap₂ then (compare_flip (code c) (code d)) (text_flip s t)
    ∙ then-flip (compare_ℕ (code c) (code d)) (compare s t)
    ∙ sym (ap flip (compare.cons-cons c d s t))

is_le-flip : (o : Ordering) → is_le o ≡ false → is_le (flip o) ≡ true
is_le-flip Ordering.lt h = absurd (false≢true (sym h))
is_le-flip Ordering.eq h = absurd (false≢true (sym h))
is_le-flip Ordering.gt h = refl

-- A text that is not before another is after it.
pub text_total : (s t : String) → is_le (compare s t) ≡ false → is_le (compare t s) ≡ true
text_total s t h = ap is_le (text_flip s t) ∙ is_le-flip (compare s t) h
