-- ===== src/Recoverable.antt =====
-- src/recoverable.rs: the amount in the human-readable part of a certificate.
pub mod Amount
pub mod Strings
pub mod Cw1
pub mod Path
pub mod Keys
pub mod Ownership
pub mod Naming
use lnurlcash_core.Common.{
  ℕ, ◌*◌, ◌/◌, ◌%◌, Bool, true, false, not, ◌||◌, List, [], ◌∷◌, ◌++◌, Option, none, some, ◌==◌,
  leb, if◌then◌else◌, all, and_then,
}
use lnurlcash_core.Common.Text.{Text, codes, text_eq, is_ascii_digit}
use lnurlcash_core.Common.Decimal.{max_u64, max_u128, decimal, decimal_u128, scan_digits}

-- An amount in the largest unit that divides it; a pico-BTC is a tenth of a msat.
unfoldable pub encode_amount_suffix : ℕ → Text
encode_amount_suffix amount_msat =
    if amount_msat % 100_000_000_000 == 0
    then decimal (amount_msat / 100_000_000_000)
    else if amount_msat % 100_000_000 == 0
    then decimal (amount_msat / 100_000_000) ++ b'm' ∷ []
    else if amount_msat % 100_000 == 0
    then decimal (amount_msat / 100_000) ++ b'u' ∷ []
    else if amount_msat % 100 == 0
    then decimal (amount_msat / 100) ++ b'n' ∷ []
    else decimal_u128 (amount_msat * 10) ++ b'p' ∷ []

abbrev pub is_unit : ℕ → Bool
is_unit c = c == b'm' || c == b'u' || c == b'n' || c == b'p'

-- The digits and the unit behind them, if there is one.
unfoldable pub split_unit : Text → Text × Option ℕ
split_unit [] = ([], none)
split_unit (c ∷ []) = if is_unit c then ([], some c) else (c ∷ [], none)
split_unit (c ∷ d ∷ s) = let rest = split_unit (d ∷ s) in (c ∷ rest.0, rest.1)

abbrev checked_mul_u128 : ℕ → ℕ → Option ℕ
checked_mul_u128 a b = if leb (a * b) max_u128 then some (a * b) else none

-- The `match` on the unit.
unfoldable pub scaled : Option ℕ → ℕ → Option ℕ
scaled none digits = checked_mul_u128 digits 100_000_000_000
scaled (some unit) digits =
    if unit == b'm'
    then checked_mul_u128 digits 100_000_000
    else if unit == b'u'
    then checked_mul_u128 digits 100_000
    else if unit == b'n'
    then checked_mul_u128 digits 100
    else if digits % 10 == 0
    then some (digits / 10)
    else none

unfoldable pub decode_amount_suffix : Text → Option ℕ
decode_amount_suffix value =
    let (digits, unit) = split_unit value in
    if text_eq digits [] || not (all is_ascii_digit digits)
    then none
    else and_then (scan_digits max_u128 digits)
        λ n. and_then (scaled unit n) λ amount. if leb amount max_u64 then some amount else none
