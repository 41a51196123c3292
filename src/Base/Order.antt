-- ===== src/Base/Order.antt =====
-- The order of texts is a strict total order: what Python's `<`, `sorted` and `min` rely on.
use Prim.Native.Nat.{ℕ, Ordering, compare as compare_ℕ}
use Prim.Native.Char.{code}
use Prim.Native.String.compare
use Prim.Native.String.{String, compare, then}
use mathlib.Core.Path.{◌≡◌, sym, ap, ◌∙◌}
use mathlib.Core.Logic.{◌≢◌}
use mathlib.Core.Bool.{true, false}
use native.Mathlib.Omega.{arith}
use text.Mathlib.Text.{is_lt}
use text.Mathlib.TextEquality.{path_by_compare}
use text.Mathlib.TextPositions.{compare_refl}
use ai_data_quality_platform.Base.Tests.{text_lt}

pub text_lt_irrefl : (s : String) → text_lt s s ≡ false
unfolding text_lt
text_lt_irrefl s = ap is_lt (compare_refl s)

lt_trans_step :
    (a b c : ℕ) (p q r : Ordering)
    → (p ≡ Ordering.lt → q ≡ Ordering.lt → r ≡ Ordering.lt)
    → then (compare_ℕ a b) p ≡ Ordering.lt
    → then (compare_ℕ b c) q ≡ Ordering.lt
    → then (compare_ℕ a c) r ≡ Ordering.lt
lt_trans_step a b c p q r both h k = ground arith

lt_trans :
    (s t u : String)
    → compare s t ≡ Ordering.lt
    → compare t u ≡ Ordering.lt
    → compare s u ≡ Ordering.lt
lt_trans String.[] String.[] u h k = k
lt_trans String.[] (String.◌∷◌ d t) String.[] h k = cc (compare.cons-nil d t)
lt_trans String.[] (String.◌∷◌ d t) (String.◌∷◌ e u) h k = compare.nil-cons e u
lt_trans (String.◌∷◌ c s) String.[] u h k = cc (compare.cons-nil c s)
lt_trans (String.◌∷◌ c s) (String.◌∷◌ d t) String.[] h k = cc (compare.cons-nil d t)
lt_trans (String.◌∷◌ c s) (String.◌∷◌ d t) (String.◌∷◌ e u) h k =
    compare.cons-cons c e s u
    ∙ lt_trans_step (code c) (code d) (code e) (compare s t) (compare t u) (compare s u)
        (lt_trans s t u) (sym (compare.cons-cons c d s t) ∙ h) (sym (compare.cons-cons d e t u) ∙ k)

flip : Ordering → Ordering
flip Ordering.lt = Ordering.gt
flip Ordering.eq = Ordering.eq
flip Ordering.gt = Ordering.lt

flip-step :
    (a b : ℕ) (p q : Ordering) → p ≡ flip q → then (compare_ℕ a b) p ≡ flip (then (compare_ℕ b a) q)
unfolding flip
flip-step a b p q h = ground arith

compare-flip : (s t : String) → compare s t ≡ flip (compare t s)
unfolding flip
compare-flip String.[] String.[] = cc compare.nil-nil
compare-flip String.[] (String.◌∷◌ d t) = rw (compare.nil-cons d t, compare.cons-nil d t)
compare-flip (String.◌∷◌ c s) String.[] = rw (compare.nil-cons c s, compare.cons-nil c s)
compare-flip (String.◌∷◌ c s) (String.◌∷◌ d t) =
    compare.cons-cons c d s t
    ∙ flip-step (code c) (code d) (compare s t) (compare t s) (compare-flip s t)
    ∙ ap flip (sym (compare.cons-cons d c t s))

pub text_lt_trans : (s t u : String) → text_lt s t ≡ true → text_lt t u ≡ true → text_lt s u ≡ true
unfolding text_lt
text_lt_trans s t u h k = ap is_lt (lt_trans s t u (ground arith) (ground arith))

pub text_lt_asymm : (s t : String) → text_lt s t ≡ true → text_lt t s ≡ false
unfolding text_lt flip
text_lt_asymm s t h = ground (arith, compare-flip s t)

-- Two texts of which neither comes first are equal.
pub text_lt_total : (s t : String) → s ≢ t → text_lt s t ≡ false → text_lt t s ≡ true
unfolding text_lt flip
text_lt_total s t ne h = ground (arith, compare-flip s t, path_by_compare s t)
