-- ===== src/Base/Numbers.antt =====
-- Python's `f"{n:04d}"`: the decimal digits of a number, padded on the left to a width.
use Prim.Native.Nat.{ℕ, zero, suc, ◌+◌, ◌/◌, ◌%◌, ◌-◌}
use Prim.Native.String.{String, ◌++◌, count, slice}
use ai_data_quality_platform.Base.Tests.{ltb, if◌then◌else◌}

digit : ℕ → String
digit d = slice "0123456789" d (d + 1)

-- A number has at most as many digits after its last one as it counts.
decimal_fuel : ℕ → ℕ → String
unfolding digit
decimal_fuel zero n = digit (n % 10)
decimal_fuel (suc fuel) n =
    let higher = decimal_fuel fuel (n / 10) in
    if ltb n 10 then digit n else higher ++ digit (n % 10)

zeros : ℕ → String
zeros zero = ""
zeros (suc n) = "0" ++ zeros n

unfoldable pub zero_padded : ℕ → ℕ → String
unfolding decimal_fuel zeros
zero_padded width n = let text = decimal_fuel n n in zeros (width - count text) ++ text
