-- ===== src/Prelude/TextOrder.antt =====
-- The order of texts by code points is a strict linear order.
use Prim.Native.Nat.{ℕ, Ordering, compare as compare_ℕ}
use Prim.Native.Char.{code}
use Prim.Native.String.compare
use Prim.Native.String.{String, compare}
use mathlib.Core.Path.{◌≡◌, refl, sym, ◌∙◌}
use mathlib.Core.Logic.{◌≢◌}
use mathlib.Core.Bool.{Bool, true, false}
use text.Mathlib.TextEquality.{path_by_compare}
use native.Mathlib.Omega.{arith}

abbrev flip : Ordering → Ordering
flip Ordering.lt = Ordering.gt
flip Ordering.eq = Ordering.eq
flip Ordering.gt = Ordering.lt

compare_ℕ_swap : (m n : ℕ) → compare_ℕ n m ≡ flip (compare_ℕ m n)
compare_ℕ_swap m n = ground arith

compare_swap : (s t : String) → compare t s ≡ flip (compare s t)
compare_swap String.[] String.[] = refl
compare_swap String.[] (String.◌∷◌ d t) = rw (compare.nil-cons, compare.cons-nil)
compare_swap (String.◌∷◌ c s) String.[] = rw (compare.nil-cons, compare.cons-nil)
compare_swap (String.◌∷◌ c s) (String.◌∷◌ d t) =
    let heads = compare_ℕ_swap (code c) (code d) in
    let tails = compare_swap s t in
    rw (compare.cons-cons c d s t, compare.cons-cons d c t s) (ground arith)

lt_ne_gt : Ordering.lt ≢ Ordering.gt
lt_ne_gt h = cc

compare_lt_trans :
    (s t u : String)
    → compare s t ≡ Ordering.lt
    → compare t u ≡ Ordering.lt
    → compare s u ≡ Ordering.lt
compare_lt_trans String.[] String.[] u h k = cc h
compare_lt_trans String.[] (String.◌∷◌ d t) String.[] h k =
    absurd (lt_ne_gt (sym k ∙ compare.cons-nil d t))
compare_lt_trans String.[] (String.◌∷◌ d t) (String.◌∷◌ e u) h k = compare.nil-cons e u
compare_lt_trans (String.◌∷◌ c s) String.[] u h k = absurd (lt_ne_gt (sym h ∙ compare.cons-nil c s))
compare_lt_trans (String.◌∷◌ c s) (String.◌∷◌ d t) String.[] h k =
    absurd (lt_ne_gt (sym k ∙ compare.cons-nil d t))
compare_lt_trans (String.◌∷◌ c s) (String.◌∷◌ d t) (String.◌∷◌ e u) h k =
    let h' = sym (compare.cons-cons c d s t) ∙ h in
    let k' = sym (compare.cons-cons d e t u) ∙ k in
    rw (compare.cons-cons c e s u) (ground (arith, compare_lt_trans s t u))

-- `s < t` on texts.
abbrev pub text_ltb : String → String → Bool
text_ltb s t = elim (compare s t) [ Ordering.lt ↦ true | _ ↦ false ]

pub text_ltb_asymm : (s t : String) → text_ltb s t ≡ true → text_ltb t s ≡ false
text_ltb_asymm s t h = ground (arith, compare_swap s t)

pub text_ltb_trans :
    (s t u : String) → text_ltb s t ≡ true → text_ltb t u ≡ true → text_ltb s u ≡ true
text_ltb_trans s t u h k = ground (arith, compare_lt_trans s t u)

-- Two texts that are not in order one way are so the other way, or equal.
pub text_ltb_total : (s t : String) → text_ltb s t ≡ false → s ≢ t → text_ltb t s ≡ true
text_ltb_total s t h n = ground (arith, compare_swap s t, path_by_compare s t)
