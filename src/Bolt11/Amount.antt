-- ===== src/Bolt11/Amount.antt =====
-- `decode_bolt11_amount_msat` of src/bolt11.rs against what BOLT 11 says of the human-readable part.
use lnurlcash_core.Common.{
  ℕ, ◌*◌, ◌≤◌, true, false, [], ◌∷◌, ◌++◌, none, some, ◌≡◌, refl, sym, ap, ◌∙◌, arith, all, ltb,
}
use lnurlcash_core.Common.Text.{
  Text, codes, lower, trim, not_char, split_last, byte_len, is_ascii_digit, take_while, drop_while,
  strip_prefix, text_eq,
}
use mathlib.Core.List.{append_assoc}
use lnurlcash_core.Common.Decimal.{decimal, max_u64}
use lnurlcash_core.Common.Decimal.RoundTrip.{IsPrinted, digits_before-IsPrinted}
use lnurlcash_core.Bolt11.{
  strip_network_prefix, split_at_separator, is_multiplier, parse_hrp, to_msat,
  decode_bolt11_amount_msat,
}

pub data Network : Text → Type 0 where
  mainnet : Network (b'b' ∷ b'c' ∷ [])
  regtest : Network (b'b' ∷ b'c' ∷ b'r' ∷ b't' ∷ [])
  testnet : Network (b't' ∷ b'b' ∷ [])
  signet : Network (b't' ∷ b'b' ∷ b's' ∷ [])
  simnet : Network (b's' ∷ b'b' ∷ [])

-- What one of a multiplier is worth, in tenths of a msat.
pub data Worth : Text → ℕ → Type 0 where
  bitcoin : Worth [] 1_000_000_000_000
  milli : Worth (b'm' ∷ []) 1_000_000_000
  micro : Worth (b'u' ∷ []) 1_000_000
  nano : Worth (b'n' ∷ []) 1_000
  pico : Worth (b'p' ∷ []) 1

-- An invoice that names `msat`: `ln`, the network, the number without leading zeros and the multiplier
-- in front of its last `1`, for an amount of whole msat, with the number and the amount a `u64`.
pub record Names (pr : Text) (msat : ℕ) : Type 0 where
  pub network : Text
  pub value : ℕ
  pub multiplier : Text
  pub tenths : ℕ
  pub data_part : Text
  pub known : Network network
  pub worth : Worth multiplier tenths
  pub written :
      lower (trim pr)
      ≡ b'l' ∷ b'n' ∷ (network ++ (decimal value ++ (multiplier ++ (b'1' ∷ data_part))))
  pub last : all (not_char b'1') data_part ≡ true
  pub number : value ≤ max_u64
  pub exact : value * tenths ≡ 10 * msat
  pub fits : msat ≤ max_u64

split_last-none : (s : Text) → all (not_char b'1') s ≡ true → split_last b'1' s ≡ none
unfolding split_last
split_last-none [] h = refl
split_last-none (c ∷ s) h = ground (arith, split_last-none s)

split_last-append :
    (s rest : Text)
    → all (not_char b'1') rest ≡ true
    → split_last b'1' (s ++ b'1' ∷ rest) ≡ some (s, rest)
unfolding split_last
split_last-append [] rest h = rw (split_last-none rest h) refl
split_last-append (c ∷ s) rest h = rw (split_last-append s rest h) refl

digits_read :
    (digits multiplier : Text) (tenths : ℕ)
    → Worth multiplier tenths
    → all is_ascii_digit digits ≡ true
    → (take_while is_ascii_digit (digits ++ multiplier) ≡ digits)
      × (drop_while is_ascii_digit (digits ++ multiplier) ≡ multiplier)
unfolding take_while drop_while is_ascii_digit
digits_read [] multiplier tenths bitcoin h = (refl, refl)
digits_read [] multiplier tenths milli h = (refl, refl)
digits_read [] multiplier tenths micro h = (refl, refl)
digits_read [] multiplier tenths nano h = (refl, refl)
digits_read [] multiplier tenths pico h = (refl, refl)
digits_read (c ∷ s) multiplier tenths w h =
    let (taken, left) = digits_read s multiplier tenths w (ground arith) in ground arith

strip_network_prefix-known :
    (network s : Text) (c : ℕ)
    → Network network
    → is_ascii_digit c ≡ true
    → strip_network_prefix (b'l' ∷ b'n' ∷ (network ++ c ∷ s)) ≡ some (c ∷ s)
unfolding strip_network_prefix strip_prefix codes is_ascii_digit
strip_network_prefix-known network s c mainnet h = ground arith
strip_network_prefix-known network s c regtest h = refl
strip_network_prefix-known network s c testnet h = ground arith
strip_network_prefix-known network s c signet h = refl
strip_network_prefix-known network s c simnet h = refl

to_msat-exact :
    (value msat : ℕ) (multiplier : Text) (tenths : ℕ)
    → Worth multiplier tenths
    → value * tenths ≡ 10 * msat
    → msat ≤ max_u64
    → to_msat value multiplier ≡ some msat
unfolding to_msat text_eq codes
to_msat-exact value msat multiplier tenths bitcoin exact fits = ground arith
to_msat-exact value msat multiplier tenths milli exact fits = ground arith
to_msat-exact value msat multiplier tenths micro exact fits = ground arith
to_msat-exact value msat multiplier tenths nano exact fits = ground arith
to_msat-exact value msat multiplier tenths pico exact fits = ground arith

printed : (value : ℕ) → value ≤ max_u64 → IsPrinted max_u64 value (decimal value)
unfolding decimal
printed value small = digits_before-IsPrinted max_u64 19 value (omega arith) small

length_known : (s : Text) → ltb (byte_len (b'l' ∷ b'n' ∷ s)) 2 ≡ false
unfolding byte_len
length_known s = ground arith

-- The human-readable part of an amount.
abbrev part_of : Text → ℕ → Text → Text
part_of network value multiplier = b'l' ∷ b'n' ∷ (network ++ (decimal value ++ multiplier))

append-part_of :
    (network multiplier data_part : Text) (value : ℕ)
    → b'l' ∷ b'n' ∷ (network ++ (decimal value ++ (multiplier ++ (b'1' ∷ data_part))))
      ≡ part_of network value multiplier ++ b'1' ∷ data_part
append-part_of network multiplier data_part value =
    ap (λ (s : Text). b'l' ∷ b'n' ∷ s)
      (ap (λ (s : Text). network ++ s)
          (sym (append_assoc (decimal value) multiplier (b'1' ∷ data_part)))
        ∙ sym (append_assoc network (decimal value ++ multiplier) (b'1' ∷ data_part)))

stripped :
    (network value_text multiplier s : Text) (c : ℕ)
    → Network network
    → value_text ≡ c ∷ s
    → all is_ascii_digit value_text ≡ true
    → strip_network_prefix (b'l' ∷ b'n' ∷ (network ++ (value_text ++ multiplier)))
      ≡ some (value_text ++ multiplier)
stripped network value_text multiplier s c known e digits =
    rw e (strip_network_prefix-known network (s ++ multiplier) c known (ground arith))

multiplier_known :
    (multiplier : Text) (tenths : ℕ) → Worth multiplier tenths → is_multiplier multiplier ≡ true
unfolding text_eq codes
multiplier_known multiplier tenths bitcoin = refl
multiplier_known multiplier tenths milli = refl
multiplier_known multiplier tenths micro = refl
multiplier_known multiplier tenths nano = refl
multiplier_known multiplier tenths pico = refl

parse_hrp-part_of :
    (network multiplier : Text) (value tenths : ℕ)
    → Network network
    → Worth multiplier tenths
    → value ≤ max_u64
    → parse_hrp (part_of network value multiplier) ≡ some (some value, multiplier)
unfolding parse_hrp text_eq
parse_hrp-part_of network multiplier value tenths known worth small =
    let shown = printed value small in
    let (c, s, e) = shown.nonempty in
    let (taken, left) = digits_read (decimal value) multiplier tenths worth shown.digits in
    rw
      (
        stripped network (decimal value) multiplier s c known e shown.digits,
        taken,
        left,
        multiplier_known multiplier tenths worth,
        shown.read,
      )
      (rw e refl)

-- The amount that an invoice names is what `decode_bolt11_amount_msat` reads.
pub decode_bolt11_amount_msat-Names :
    (pr : Text) (msat : ℕ) → Names pr msat → decode_bolt11_amount_msat pr ≡ some msat
unfolding decode_bolt11_amount_msat split_at_separator
decode_bolt11_amount_msat-Names pr msat names =
    let hrp = part_of names.network names.value names.multiplier in
    rw
      (
        names.written ∙ append-part_of names.network names.multiplier names.data_part names.value,
        split_last-append hrp names.data_part names.last,
        length_known (names.network ++ (decimal names.value ++ names.multiplier)),
        parse_hrp-part_of names.network names.multiplier names.value names.tenths names.known
            names.worth names.number,
      )
      (to_msat-exact names.value msat names.multiplier names.tenths names.worth names.exact
        names.fits)
