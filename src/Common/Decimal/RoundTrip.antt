-- ===== src/Common/Decimal/RoundTrip.antt =====
-- A `u64` that is printed reads back.
use Prim.Native.Nat.{ℕ, zero, suc, ◌+◌, ◌/◌, ◌%◌, ◌^◌, ◌≤◌, ◌<◌}
use mathlib.Core.Path.{◌≡◌, refl, sym, ap, ◌∙◌, subst}
use mathlib.Core.Logic.{inl, inr}
use mathlib.Core.Bool.{true, false}
use mathlib.Core.Option.{some}
use mathlib.Core.List.{[], ◌∷◌}
use native.Mathlib.Omega.{arith}
use native.Mathlib.Nat.{pow-suc}
use lnurlcash_core.Common.Tests.{ltb, if◌then◌else◌, Bool-cases, ltb→lt}
use lnurlcash_core.Common.Lists.{all}
use lnurlcash_core.Common.Text.{Text, is_ascii_digit}
use lnurlcash_core.Common.Decimal.{
  max_u64, max_u128, digits_before, decimal, decimal_u128, scan, scan_digits, parse_u64,
}

abbrev digit_of : ℕ → ℕ
digit_of n = b'0' + n % 10

scan_last :
    (cap n : ℕ) (out : Text) → n ≤ cap → scan cap (n / 10) (digit_of n ∷ out) ≡ scan cap n out
unfolding scan
scan_last cap n out h = ground arith

digits_before_step :
    (f n : ℕ) (out : Text)
    → digits_before (suc f) n out
      ≡ (if ltb n 10 then digit_of n ∷ out else digits_before f (n / 10) (digit_of n ∷ out))
unfolding digits_before
digits_before_step f n out = refl

tenth : (n : ℕ) → ltb n 10 ≡ true → n / 10 ≡ 0
tenth n h = omega (arith, ltb→lt n 10 h)

digits_before_small :
    (f n : ℕ) (out : Text) → ltb n 10 ≡ true → digits_before (suc f) n out ≡ digit_of n ∷ out
digits_before_small f n out h = rw (digits_before_step, h)

digits_before_large :
    (f n : ℕ) (out : Text)
    → ltb n 10 ≡ false
    → digits_before (suc f) n out ≡ digits_before f (n / 10) (digit_of n ∷ out)
digits_before_large f n out h = rw (digits_before_step, h)

scan-digits_before :
    (cap f n : ℕ) (out : Text)
    → n < 10 ^ suc f
    → n ≤ cap
    → scan cap 0 (digits_before (suc f) n out) ≡ scan cap n out
scan-digits_before cap zero n out small fits =
    let last : ltb n 10 ≡ true = ground arith in
    rw (digits_before_small 0 n out last) (
      subst (λ m. scan cap m (digit_of n ∷ out) ≡ scan cap n out) (tenth n last)
        (scan_last cap n out fits))
scan-digits_before cap (suc f) n out small fits = elim (Bool-cases (ltb n 10)) [
  | inl last ↦ rw (digits_before_small (suc f) n out last) (
      subst (λ m. scan cap m (digit_of n ∷ out) ≡ scan cap n out) (tenth n last)
        (scan_last cap n out fits))
  | inr more ↦ rw (digits_before_large (suc f) n out more) (
      scan-digits_before cap f (n / 10) (digit_of n ∷ out) (omega (arith, pow-suc 10 (suc f)))
        (omega arith)
      ∙ scan_last cap n out fits)
]

digits_before_zero : (n : ℕ) (out : Text) → digits_before 0 n out ≡ out
unfolding digits_before
digits_before_zero n out = refl

is_ascii_digit-digit_of : (n : ℕ) → is_ascii_digit (digit_of n) ≡ true
unfolding is_ascii_digit
is_ascii_digit-digit_of n = ground arith

-- What is printed begins with a digit.
starts_with_digit :
    (f n : ℕ) (out : Text)
    → (c : ℕ) × (s : Text) × (digits_before (suc f) n out ≡ c ∷ s) × (is_ascii_digit c ≡ true)
starts_with_digit zero n out = elim (Bool-cases (ltb n 10)) [
  | inl last ↦ (digit_of n, out, digits_before_small 0 n out last, is_ascii_digit-digit_of n)
  | inr more ↦ (
    digit_of n,
    out,
    digits_before_large 0 n out more ∙ digits_before_zero (n / 10) (digit_of n ∷ out),
    is_ascii_digit-digit_of n,
  )
]
starts_with_digit (suc f) n out = elim (Bool-cases (ltb n 10)) [
  | inl last ↦ (digit_of n, out, digits_before_small (suc f) n out last, is_ascii_digit-digit_of n)
  | inr more ↦
      let (c, s, e, digit) = starts_with_digit f (n / 10) (digit_of n ∷ out) in
      (c, s, digits_before_large (suc f) n out more ∙ e, digit)
]

parse_u64-scan :
    (c : ℕ) (s : Text) → is_ascii_digit c ≡ true → parse_u64 (c ∷ s) ≡ scan max_u64 0 (c ∷ s)
unfolding parse_u64 is_ascii_digit
parse_u64-scan c s h = ground arith

scan-printed :
    (cap f n : ℕ) → n < 10 ^ suc f → n ≤ cap → scan cap 0 (digits_before (suc f) n []) ≡ some n
unfolding scan
scan-printed cap f n small fits = scan-digits_before cap f n [] small fits

-- A `u64` that is printed reads back.
pub parse_u64-decimal : (n : ℕ) → n ≤ max_u64 → parse_u64 (decimal n) ≡ some n
unfolding decimal
parse_u64-decimal n fits =
    let (c, s, e, digit) = starts_with_digit 19 n [] in
    ap parse_u64 e
    ∙ parse_u64-scan c s digit
    ∙ sym (ap (scan max_u64 0) e)
    ∙ scan-printed max_u64 19 n (omega arith) fits

digits_before_digits :
    (f n : ℕ) (out : Text)
    → all is_ascii_digit out ≡ true
    → all is_ascii_digit (digits_before f n out) ≡ true
digits_before_digits zero n out h =
    subst (λ (t : Text). all is_ascii_digit t ≡ true) (sym (digits_before_zero n out)) h
digits_before_digits (suc f) n out h =
    let here : all is_ascii_digit (digit_of n ∷ out) ≡ true = rw (is_ascii_digit-digit_of n) h in
    elim (Bool-cases (ltb n 10)) [
      | inl last ↦ rw (digits_before_step, last) here
      | inr more ↦
          rw (digits_before_step, more) (digits_before_digits f (n / 10) (digit_of n ∷ out) here)
    ]

-- A text of digits that reads back as `n`, in a type of numbers up to `cap`.
pub record IsPrinted (cap n : ℕ) (text : Text) : Type 0 where
  pub digits : all is_ascii_digit text ≡ true
  pub nonempty : (c : ℕ) × (s : Text) × (text ≡ c ∷ s)
  pub read : scan_digits cap text ≡ some n

scan_digits-scan : (cap c : ℕ) (s : Text) → scan_digits cap (c ∷ s) ≡ scan cap 0 (c ∷ s)
unfolding scan_digits
scan_digits-scan cap c s = refl

pub digits_before-IsPrinted :
    (cap f n : ℕ) → n < 10 ^ suc f → n ≤ cap → IsPrinted cap n (digits_before (suc f) n [])
digits_before-IsPrinted cap f n small fits =
    let (c, s, e, _) = starts_with_digit f n [] in
    record {
      digits = digits_before_digits (suc f) n [] refl;
      nonempty = (c, s, e);
      read =
          ap (scan_digits cap) e
          ∙ scan_digits-scan cap c s
          ∙ sym (ap (scan cap 0) e)
          ∙ scan-printed cap f n small fits;
    }

pub decimal-IsPrinted : (n : ℕ) → n ≤ max_u64 → IsPrinted max_u128 n (decimal n)
unfolding decimal
decimal-IsPrinted n fits = digits_before-IsPrinted max_u128 19 n (omega arith) (omega arith)

pub decimal_u128-IsPrinted : (n : ℕ) → n ≤ max_u128 → IsPrinted max_u128 n (decimal_u128 n)
unfolding decimal_u128
decimal_u128-IsPrinted n fits = digits_before-IsPrinted max_u128 38 n (omega arith) fits
