-- ===== src/Fees/Tests.antt =====
-- Runs of src/fees.rs.
use lnurlcash_core.Common.{some, none, ◌≡◌, refl}
use lnurlcash_core.Fees.{
  MintFee, gross_up_for_mint_fee, double_up, narrow, apply_mint_fee, proportional_fee,
}

abbrev half_percent : MintFee
half_percent = record { base_fee_msat = 1000; fee_ppm = 5000; address_fee_msat = none }

gross_up_run : gross_up_for_mint_fee 100_000 half_percent ≡ some 101_507
unfolding gross_up_for_mint_fee double_up narrow apply_mint_fee proportional_fee
gross_up_run = refl
