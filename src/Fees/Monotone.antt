-- ===== src/Fees/Monotone.antt =====
-- `apply_mint_fee` of src/fees.rs grows with the amount paid, by at most one msat for each msat.
use lnurlcash_core.Common.{ℕ, zero, suc, ◌+◌, ◌-◌, ◌*◌, ◌/◌, ◌^◌, ◌≤◌, ◌<◌, ◌≡◌, arith}
use lnurlcash_core.Fees.{MintFee, million, apply_mint_fee}
use lnurlcash_core.Fees.Proportional.{proportional_fee_exact}

-- A fee that `parse_token` can return: its rate is below one million.
abbrev pub IsBounded : MintFee → Type 0
IsBounded fee = fee.fee_ppm < million

pub apply_mint_fee_exact :
    (g : ℕ) (fee : MintFee)
    → IsBounded fee
    → g < 2 ^ 64
    → apply_mint_fee g fee ≡ g - fee.base_fee_msat - g * fee.fee_ppm / million
unfolding apply_mint_fee
apply_mint_fee_exact g fee b h = omega (arith, proportional_fee_exact g fee.fee_ppm h b)

-- One more msat paid adds nothing or one msat to the note, if the rate is below one million and both
-- amounts are a `u64`.
pub apply_mint_fee_step :
    (g : ℕ) (fee : MintFee)
    → IsBounded fee
    → g + 1 < 2 ^ 64
    → (apply_mint_fee g fee ≤ apply_mint_fee (g + 1) fee)
      × (apply_mint_fee (g + 1) fee ≤ apply_mint_fee g fee + 1)
apply_mint_fee_step g fee b h =
    let here = apply_mint_fee_exact g fee b (omega arith) in
    let next = apply_mint_fee_exact (g + 1) fee b h in (omega arith, omega arith)

apply_mint_fee_add :
    (d g : ℕ) (fee : MintFee)
    → IsBounded fee
    → g + d < 2 ^ 64
    → apply_mint_fee g fee ≤ apply_mint_fee (g + d) fee
apply_mint_fee_add zero g fee b h = ground arith
apply_mint_fee_add (suc d) g fee b h =
    ground (arith, apply_mint_fee_add d (g + 1) fee b, apply_mint_fee_step g fee b)

pub apply_mint_fee_mono :
    (g k : ℕ) (fee : MintFee)
    → IsBounded fee
    → g ≤ k
    → k < 2 ^ 64
    → apply_mint_fee g fee ≤ apply_mint_fee k fee
apply_mint_fee_mono g k fee b le h = ground (arith, apply_mint_fee_add (k - g) g fee b)
