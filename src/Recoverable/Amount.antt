-- ===== src/Recoverable/Amount.antt =====
-- The amount suffix of src/recoverable.rs, encoded and decoded.
use lnurlcash_core.Common.{
  ℕ, ◌*◌, ◌/◌, ◌%◌, ◌≤◌, true, false, [], ◌∷◌, ◌++◌, Option, none, some, ◌≡◌, refl, sym, subst, ◌∙◌,
  arith, ◌==◌, leb, if◌then◌else◌, all, and_then, inl, inr, Bool-cases, ==_iff,
}
use lnurlcash_core.Common.Text.{Text, text_eq, is_ascii_digit}
use lnurlcash_core.Common.Decimal.{max_u64, max_u128}
use lnurlcash_core.Common.Decimal.RoundTrip.{IsPrinted, decimal-IsPrinted, decimal_u128-IsPrinted}
use lnurlcash_core.Recoverable.{
  encode_amount_suffix, is_unit, split_unit, scaled, decode_amount_suffix,
}

split_unit-append :
    (c : ℕ) (s : Text) (unit : ℕ)
    → is_unit unit ≡ true
    → split_unit ((c ∷ s) ++ unit ∷ []) ≡ (c ∷ s, some unit)
unfolding split_unit
split_unit-append c [] unit h = rw h refl
split_unit-append c (d ∷ s) unit h = rw (split_unit-append d s unit h) refl

digit_no_unit : (c : ℕ) → is_ascii_digit c ≡ true → is_unit c ≡ false
unfolding is_ascii_digit
digit_no_unit c h = ground arith

split_unit-digits :
    (c : ℕ) (s : Text) → all is_ascii_digit (c ∷ s) ≡ true → split_unit (c ∷ s) ≡ (c ∷ s, none)
unfolding split_unit
split_unit-digits c [] h =
    let digit : is_ascii_digit c ≡ true = ground arith in rw (digit_no_unit c digit) refl
split_unit-digits c (d ∷ s) h =
    let rest : all is_ascii_digit (d ∷ s) ≡ true = ground arith in
    rw (split_unit-digits d s rest) refl

-- How a scaled amount ends.
abbrev fitting : Option ℕ → Option ℕ
fitting found = and_then found (λ amount. if leb amount max_u64 then some amount else none)

decode-split_unit :
    (n : ℕ) (value : Text) (c : ℕ) (s : Text) (unit : Option ℕ)
    → split_unit value ≡ (c ∷ s, unit)
    → IsPrinted max_u128 n (c ∷ s)
    → decode_amount_suffix value ≡ fitting (scaled unit n)
unfolding decode_amount_suffix text_eq
decode-split_unit n value c s unit e printed = rw (e, printed.digits, printed.read) refl

decode-printed :
    (n : ℕ) (text : Text)
    → IsPrinted max_u128 n text
    → decode_amount_suffix text ≡ fitting (scaled none n)
decode-printed n text printed =
    let (c, s, e) = printed.nonempty in
    let first : IsPrinted max_u128 n (c ∷ s) = subst (IsPrinted max_u128 n) e printed in
    subst (λ (t : Text). decode_amount_suffix t ≡ fitting (scaled none n)) (sym e)
      (decode-split_unit n (c ∷ s) c s none (split_unit-digits c s first.digits) first)

decode-printed_unit :
    (n : ℕ) (text : Text) (unit : ℕ)
    → is_unit unit ≡ true
    → IsPrinted max_u128 n text
    → decode_amount_suffix (text ++ unit ∷ []) ≡ fitting (scaled (some unit) n)
decode-printed_unit n text unit h printed =
    let (c, s, e) = printed.nonempty in
    subst (λ (t : Text). decode_amount_suffix (t ++ unit ∷ []) ≡ fitting (scaled (some unit) n))
      (sym e)
      (decode-split_unit n ((c ∷ s) ++ unit ∷ []) c s (some unit) (split_unit-append c s unit h)
        (subst (IsPrinted max_u128 n) e printed))

-- A quotient by a unit, scaled up again.
scaled-quotient :
    (n : ℕ)
    → n ≤ max_u64
    → ((n % 100_000_000_000 ≡ 0 → fitting (scaled none (n / 100_000_000_000)) ≡ some n)
        × (n % 100_000_000 ≡ 0 → fitting (scaled (some b'm') (n / 100_000_000)) ≡ some n)
        × (n % 100_000 ≡ 0 → fitting (scaled (some b'u') (n / 100_000)) ≡ some n)
        × (n % 100 ≡ 0 → fitting (scaled (some b'n') (n / 100)) ≡ some n)
        × (fitting (scaled (some b'p') (n * 10)) ≡ some n))
unfolding scaled
scaled-quotient n fits =
    (λ h. ground arith, λ h. ground arith, λ h. ground arith, λ h. ground arith, ground arith)

-- Every `u64` amount that is encoded decodes to itself.
pub decode_amount_suffix-encode_amount_suffix :
    (amount_msat : ℕ)
    → amount_msat ≤ max_u64
    → decode_amount_suffix (encode_amount_suffix amount_msat) ≡ some amount_msat
unfolding encode_amount_suffix
decode_amount_suffix-encode_amount_suffix n fits =
    let (whole, milli, micro, nano, pico) = scaled-quotient n fits in
    elim (Bool-cases (n % 100_000_000_000 == 0)) [
      | inl a ↦
          rw a (decode-printed _ _ (decimal-IsPrinted _ (omega arith)) ∙ whole ((==_iff _ 0).0 a))
      | inr a ↦ elim (Bool-cases (n % 100_000_000 == 0)) [
        | inl b ↦
            rw (a, b)
              (decode-printed_unit _ _ b'm' refl (decimal-IsPrinted _ (omega arith))
                ∙ milli ((==_iff _ 0).0 b))
        | inr b ↦ elim (Bool-cases (n % 100_000 == 0)) [
          | inl c ↦
              rw (a, b, c)
                (decode-printed_unit _ _ b'u' refl (decimal-IsPrinted _ (omega arith))
                  ∙ micro ((==_iff _ 0).0 c))
          | inr c ↦ elim (Bool-cases (n % 100 == 0)) [
            | inl e ↦
                rw (a, b, c, e)
                  (decode-printed_unit _ _ b'n' refl (decimal-IsPrinted _ (omega arith))
                    ∙ nano ((==_iff _ 0).0 e))
            | inr e ↦
                rw (a, b, c, e)
                  (decode-printed_unit _ _ b'p' refl (decimal_u128-IsPrinted _ (omega arith))
                    ∙ pico)
          ]
        ]
      ]
    ]
