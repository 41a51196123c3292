-- ===== src/Identity/Clock.antt =====
-- identity/clock.py: instants, and the stamps that are stored. A `datetime` in UTC is its number of
-- microseconds since year 1. A stamp is a text of fixed width to the second, which SQLite compares
-- as a text; the development writes it as the second that it names, in whose order the texts are.
use ai_data_quality_platform.Base.{ℕ}
use Prim.Native.Nat.{◌*◌, ◌/◌}

-- `utc_now(clock)`: the clock's answer without its microseconds.
unfoldable pub utc_now : ℕ → ℕ
utc_now reading = reading / 1000000 * 1000000

-- `format_utc_timestamp`
unfoldable pub format_utc_timestamp : ℕ → ℕ
format_utc_timestamp moment = moment / 1000000

-- `parse_utc_timestamp`
unfoldable pub parse_utc_timestamp : ℕ → ℕ
parse_utc_timestamp stamp = stamp * 1000000
