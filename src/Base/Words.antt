-- ===== src/Base/Words.antt =====
-- The machine-width arithmetic that the program uses: checked and saturating operations on u8 and
-- u64, and the subtraction of i64 under `overflow-checks = true`, which panics out of range.
use Prim.Native.Nat.{ℕ, ◌+◌, ◌-◌, ◌*◌}
use mathlib.Core.Bool.{◌&&◌}
use mathlib.Core.Option.{Option, none, some}
use shake_escrow.Base.Tests.{leb, if◌then◌else◌}
use shake_escrow.Base.Int.{ℤ, pos, negsuc, ◌-ℤ◌, leb_ℤ}
use shake_escrow.Base.Results.{Result, ok, err, panic}

abbrev pub u8_max : ℕ
u8_max = 255

abbrev pub u64_max : ℕ
u64_max = 18446744073709551615

abbrev pub u128_max : ℕ
u128_max = 340282366920938463463374607431768211455

-- `checked_add` and `checked_mul` of the type whose largest value is `top`.
abbrev pub checked_add : ℕ → ℕ → ℕ → Option ℕ
checked_add top a b = if leb (a + b) top then some (a + b) else none

abbrev pub checked_mul : ℕ → ℕ → ℕ → Option ℕ
checked_mul top a b = if leb (a * b) top then some (a * b) else none

abbrev pub checked_sub : ℕ → ℕ → Option ℕ
checked_sub a b = if leb b a then some (a - b) else none

-- `u64::try_from` of a u128.
abbrev pub try_u64 : ℕ → Option ℕ
try_u64 a = if leb a u64_max then some a else none

-- `saturating_sub` on an unsigned type is truncated subtraction.
abbrev pub saturating_sub : ℕ → ℕ → ℕ
saturating_sub a b = a - b

abbrev pub saturating_mul : ℕ → ℕ → ℕ → ℕ
saturating_mul top a b = if leb (a * b) top then a * b else top

-- A plain `+` under overflow checks.
abbrev pub add_u64 : ℕ → ℕ → Result ℕ
add_u64 a b = if leb (a + b) u64_max then ok (a + b) else err panic

abbrev pub i64_max : ℤ
i64_max = pos 9223372036854775807

abbrev pub i64_min : ℤ
i64_min = negsuc 9223372036854775807

-- A plain `-` on i64 under overflow checks.
unfoldable pub sub_i64 : ℤ → ℤ → Result ℤ
sub_i64 a b = let d = a -ℤ b in if leb_ℤ i64_min d && leb_ℤ d i64_max then ok d else err panic
