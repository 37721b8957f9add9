-- ===== src/Common/Decimal.antt =====
-- Printing a number in decimal, and `str::parse::<u64>`.
pub mod RoundTrip
use Prim.Native.Nat.{ℕ, zero, suc, ◌+◌, ◌-◌, ◌*◌, ◌/◌, ◌%◌, ◌^◌}
use mathlib.Core.Option.{Option, none, some}
use mathlib.Core.List.{[], ◌∷◌}
use lnurlcash_core.Common.Tests.{ltb, leb, ◌==◌, if◌then◌else◌}
use lnurlcash_core.Common.Text.{Text, is_ascii_digit}

abbrev pub max_u64 : ℕ
max_u64 = 2 ^ 64 - 1

-- The digits of a number before those in `out`; one unit of fuel for a digit.
unfoldable pub digits_before : ℕ → ℕ → Text → Text
digits_before zero n out = out
digits_before (suc f) n out =
    let d = (b'0' + n % 10) ∷ out in
    let rest = digits_before f (n / 10) d in if ltb n 10 then d else rest

-- `u64::to_string`: a `u64` has twenty digits at most.
unfoldable pub decimal : ℕ → Text
decimal n = digits_before 20 n []

abbrev pub max_u128 : ℕ
max_u128 = 2 ^ 128 - 1

-- `u128::to_string`: a `u128` has thirty-nine digits at most.
unfoldable pub decimal_u128 : ℕ → Text
decimal_u128 n = digits_before 39 n []

-- The loop of `parse` for a type of numbers up to `cap`: `checked_mul` and `checked_add` on a value
-- that stays in the type.
unfoldable pub scan : ℕ → ℕ → Text → Option ℕ
unfolding is_ascii_digit
scan cap n [] = some n
scan cap n (c ∷ s) =
    let m = n * 10 + (c - b'0') in
    let rest = scan cap m s in if is_ascii_digit c then (if leb m cap then rest else none) else none

unfoldable pub scan_digits : ℕ → Text → Option ℕ
scan_digits cap [] = none
scan_digits cap (c ∷ s) = scan cap 0 (c ∷ s)

-- `str::parse::<u64>`, which takes one leading `+`.
unfoldable pub parse_u64 : Text → Option ℕ
unfolding scan_digits
parse_u64 [] = none
parse_u64 (c ∷ s) = if c == b'+' then scan_digits max_u64 s else scan_digits max_u64 (c ∷ s)
