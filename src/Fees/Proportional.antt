-- ===== src/Fees/Proportional.antt =====
-- `proportional_fee` of src/fees.rs against the exact quotient.
use lnurlcash_core.Common.{ℕ, ◌+◌, ◌*◌, ◌/◌, ◌%◌, ◌^◌, ◌≤◌, ◌<◌, ◌≡◌, ap, ◌∙◌, arith}
use lnurlcash_core.Fees.{million, proportional_fee}

mul-le-million : (q p : ℕ) → p < million → q * p ≤ q * million
mul-le-million q p h = grind arith

-- The two halves of the split product, for an amount with quotient `q` and remainder `r`.
halves_exact :
    (q r p : ℕ)
    → q * million + r < 2 ^ 64
    → r < million
    → p < million
    → (q * p % 2 ^ 64 + r * p % 2 ^ 64 / million) % 2 ^ 64 ≡ (q * million + r) * p / million
halves_exact q r p g hr hp = omega (arith, mul-le-million q p hp, mul-le-million r p hp)

-- On a `u64` amount and a rate below one million, nothing wraps around, and the fee is the exact
-- floor of gross * ppm / 1_000_000.
pub proportional_fee_exact :
    (gross ppm : ℕ)
    → gross < 2 ^ 64
    → ppm < million
    → proportional_fee gross ppm ≡ gross * ppm / million
unfolding proportional_fee
proportional_fee_exact gross ppm g p =
    halves_exact (gross / million) (gross % million) ppm (omega arith) (omega arith) p
    ∙ ap (λ (t : ℕ). t * ppm / million) (omega arith)
