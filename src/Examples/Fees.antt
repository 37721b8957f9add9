-- ===== src/Examples/Fees.antt =====
-- The theorems on src/fees.rs at concrete fees.
use lnurlcash_core.Common.{ℕ, ◌+◌, ◌*◌, ◌/◌, ◌^◌, ◌≤◌, some, none, ◌≡◌, arith}
use lnurlcash_core.Common.Decimal.{max_u64}
use lnurlcash_core.Fees.{MintFee, million, proportional_fee, apply_mint_fee, gross_up_for_mint_fee}
use lnurlcash_core.Fees.Proportional.{proportional_fee_exact}
use lnurlcash_core.Fees.Monotone.{apply_mint_fee_mono}
use lnurlcash_core.Fees.GrossUp.{
  IsSmallest, IsAnswer, gross_up_total, gross_up-IsSmallest, gross_up_gives_up,
}

abbrev half_percent : MintFee
half_percent = record { base_fee_msat = 1000; fee_ppm = 5000; address_fee_msat = none }

abbrev tenth : MintFee
tenth = record { base_fee_msat = 0; fee_ppm = 100_000; address_fee_msat = none }

proportional_fee_exact_example : proportional_fee 123_456_789 5000 ≡ 123_456_789 * 5000 / million
proportional_fee_exact_example = proportional_fee_exact 123_456_789 5000 (omega arith) (omega arith)

apply_mint_fee_mono_example :
    apply_mint_fee 101_506 half_percent ≤ apply_mint_fee 202_000 half_percent
apply_mint_fee_mono_example =
    apply_mint_fee_mono 101_506 202_000 half_percent (omega arith) (omega arith) (omega arith)

gross_up_total_example :
    (m : ℕ) × (gross_up_for_mint_fee 100_000 half_percent ≡ some m)
    × IsAnswer 100_000 half_percent (omega arith) m
gross_up_total_example = gross_up_total 100_000 half_percent (omega arith)

gross_up-IsSmallest_example :
    (m : ℕ) × (gross_up_for_mint_fee 100_000 half_percent ≡ some m)
    × IsSmallest 100_000 half_percent m
unfolding apply_mint_fee proportional_fee
gross_up-IsSmallest_example =
    gross_up-IsSmallest 100_000 half_percent (omega arith) 101_507 (omega arith) (omega arith)

gross_up_gives_up_example :
    (gross_up_for_mint_fee (2 ^ 63) tenth ≡ some max_u64) × ¬ IsSmallest (2 ^ 63) tenth max_u64
unfolding apply_mint_fee proportional_fee
gross_up_gives_up_example =
    gross_up_gives_up (2 ^ 63) tenth (omega arith) (2 ^ 63 + 2 ^ 61) (omega arith) (omega arith)
      (omega arith) (omega arith) (omega arith)
