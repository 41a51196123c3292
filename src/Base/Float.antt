-- ===== src/Base/Float.antt =====
-- Python's `float`, an IEEE 754 double, as its sign bit and its other 63 bits. The development only
-- compares floats; what computes them is taken as an argument where it occurs.
use Prim.Native.Nat.{ℕ}
use mathlib.Core.Path.{◌≡◌}
use mathlib.Core.Bool.{Bool, true, not, ◌&&◌}
use native.Mathlib.Omega.{arith}
use ai_data_quality_platform.Base.Tests.{ltb, leb, nat_eq, if◌then◌else◌}

pub record Float : Type 0 where
  pub negative : Bool
  pub magnitude : ℕ

-- Above the pattern of infinity stand the NaNs.
abbrev pub infinity_bits : ℕ
infinity_bits = 0x7ff0000000000000

pub is_nan : Float → Bool
is_nan x = ltb infinity_bits x.magnitude

-- `x <= y`: the magnitudes order the patterns of one sign, 0.0 equals -0.0, NaN compares false.
unfoldable pub float_le : Float → Float → Bool
unfolding is_nan
float_le x y =
    not (is_nan x)
    && not (is_nan y)
    && (if x.negative
        then (if y.negative then leb y.magnitude x.magnitude else true)
        else (if y.negative
            then nat_eq x.magnitude 0 && nat_eq y.magnitude 0
            else leb x.magnitude y.magnitude))

-- `x >= y`, `x < y` and `x > y`
unfoldable pub float_ge : Float → Float → Bool
unfolding float_le
float_ge x y = float_le y x

unfoldable pub float_lt : Float → Float → Bool
unfolding float_le
float_lt x y = float_le x y && not (float_le y x)

pub float_le_trans :
    (x y z : Float) → float_le x y ≡ true → float_le y z ≡ true → float_le x z ≡ true
unfolding float_le
float_le_trans x y z h k = ground arith

pub float_ge_trans :
    (x y z : Float) → float_ge x y ≡ true → float_ge y z ≡ true → float_ge x z ≡ true
unfolding float_ge
float_ge_trans x y z h k = float_le_trans z y x k h
