-- ===== src/Fees/Token.antt =====
-- The `Mint fees` token of src/fees.rs.
pub mod Bounds
use lnurlcash_core.Common.{
  map, ℕ, Bool, ◌&&◌, ◌||◌, not, List, [], ◌∷◌, Option, none, some, leb, ◌==◌, if◌then◌else◌, all,
  is_some_and, and_then, get_elem?, option_filter, or_else, unwrap_or, ◌^◌, ◌-◌,
}
use lnurlcash_core.Common.Text.{
  Text, codes, text_eq, is_ascii_digit, is_whitespace, trim_start, take_while, after_first,
  split_at,
}
use lnurlcash_core.Common.Decimal.{parse_u64}
use lnurlcash_core.Deps.{JsonApi}
use lnurlcash_core.Fees.{MintFee, million}

abbrev pub max_safe_integer : ℕ
max_safe_integer = 2 ^ 53 - 1

unfoldable pub value_of : Text → Option ℕ
value_of text =
    if text_eq text [] || not (all is_ascii_digit text)
    then none
    else option_filter (parse_u64 text) (λ value. leb value max_safe_integer)

-- The values between the commas. The first two have to be there.
unfoldable pub fee_of_parts : Text → List Text → Option MintFee
unfolding value_of
fee_of_parts base [] = and_then (value_of base) λ _. none
fee_of_parts base (ppm ∷ more) = and_then (value_of base) λ base_fee_msat.
    and_then (value_of ppm) λ fee_ppm.
      if leb million fee_ppm
      then none
      else some (record {
        base_fee_msat = base_fee_msat;
        fee_ppm = fee_ppm;
        address_fee_msat = and_then (get_elem? more 0) value_of;
      })

unfoldable pub parse_token : Text → Option MintFee
unfolding fee_of_parts
parse_token text = and_then (after_first (codes "Mint fees:") text) λ behind.
    let values = take_while (λ c. not (is_whitespace c)) (trim_start behind) in
    let (base, parts) = split_at b',' values in fee_of_parts base parts

abbrev pub find_token : List (Option Text) → Option MintFee
find_token [] = none
find_token (entry ∷ entries) = or_else (and_then entry parse_token) (find_token entries)

abbrev pub is_free : MintFee → Bool
is_free fee = fee.base_fee_msat == 0 && fee.fee_ppm == 0 && unwrap_or fee.address_fee_msat 0 == 0

module _ {Value : Type 0} (json : JsonApi Value) where
  -- A JSON array of arrays, as `serde_json::from_str` reads it.
  abbrev pub arrays : List Value → Option (List (List Value))
  arrays [] = some []
  arrays (v ∷ vs) =
      and_then (json.value_array v) λ entry. and_then (arrays vs) λ entries. some (entry ∷ entries)

  -- The text of a `text/plain` entry.
  abbrev pub plain_text : List Value → Option Text
  plain_text entry =
      if is_some_and (and_then (get_elem? entry 0) json.value_str)
        (λ s. text_eq s (codes "text/plain"))
      then and_then (get_elem? entry 1) json.value_str
      else none

  unfoldable pub parse_mint_fee : Text → Option MintFee
  parse_mint_fee metadata = and_then (json.from_str metadata) λ value.
      and_then (json.value_array value) λ items. and_then (arrays items) λ entries.
        and_then (find_token (map plain_text entries)) λ fee. if is_free fee then none else some fee
