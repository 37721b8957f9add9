-- ===== src/Fees.antt =====
-- src/fees.rs: the arithmetic of the mint fee. A `u64` is a number below 2 ^ 64, and `+` and `*`
-- keep their wrap-around.
pub mod Proportional
pub mod Monotone
pub mod GrossUp
pub mod Token
mod Tests
use lnurlcash_core.Common.{
  ℕ, zero, suc, ◌+◌, ◌-◌, ◌*◌, ◌/◌, ◌%◌, ◌^◌, min, max, Option, none, some, ltb, leb, ◌==◌,
  if◌then◌else◌,
}
use lnurlcash_core.Common.Decimal.{max_u64}

pub record MintFee : Type 0 where
  pub base_fee_msat : ℕ
  pub fee_ppm : ℕ
  pub address_fee_msat : Option ℕ

abbrev pub million : ℕ
million = 1_000_000

unfoldable pub proportional_fee : ℕ → ℕ → ℕ
proportional_fee gross_msat fee_ppm =
    ((gross_msat / million) * fee_ppm % 2 ^ 64
      + (gross_msat % million) * fee_ppm % 2 ^ 64 / million)
    % 2 ^ 64

unfoldable pub apply_mint_fee : ℕ → MintFee → ℕ
apply_mint_fee gross_msat fee =
    gross_msat - fee.base_fee_msat - proportional_fee gross_msat fee.fee_ppm

-- How the first loop of `gross_up_for_mint_fee` ends: by its test, or by `checked_mul`.
pub data Doubling : Type 0 where
  reached : (hi : ℕ) → Doubling
  overflowed : Doubling
  out_of_fuel : Doubling

unfoldable pub double_up : ℕ → ℕ → MintFee → ℕ → Doubling
double_up zero net_msat fee hi = out_of_fuel
double_up (suc f) net_msat fee hi =
    let next = double_up f net_msat fee (hi * 2) in
    if ltb (apply_mint_fee hi fee) net_msat
    then (if leb (hi * 2) max_u64 then next else overflowed)
    else reached hi

-- The binary search; `none` means that the fuel ran out.
unfoldable pub narrow : ℕ → ℕ → MintFee → ℕ → ℕ → Option ℕ
narrow zero net_msat fee lo hi = none
narrow (suc f) net_msat fee lo hi =
    let mid = lo + (hi - lo) / 2 in
    let left = narrow f net_msat fee lo mid in
    let right = narrow f net_msat fee (mid + 1) hi in
    if ltb lo hi then (if leb net_msat (apply_mint_fee mid fee) then left else right) else some lo

abbrev pub loop_fuel : ℕ
loop_fuel = 65

abbrev pub search : ℕ → MintFee → Doubling → Option ℕ
search net_msat fee (reached hi) = narrow loop_fuel net_msat fee 0 hi
search net_msat fee overflowed = some max_u64
search net_msat fee out_of_fuel = none

unfoldable pub gross_up_for_mint_fee : ℕ → MintFee → Option ℕ
gross_up_for_mint_fee net_msat fee =
    if net_msat == 0
    then some 0
    else search net_msat fee
        (double_up loop_fuel net_msat fee (max (min (net_msat + fee.base_fee_msat) max_u64) 1))
