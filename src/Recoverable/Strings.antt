-- ===== src/Recoverable/Strings.antt =====
-- The strings of src/recoverable.rs with a payload of fixed length. An array is a list of bytes whose
-- length was tested; the `expect` of `encode_bytes` is `none`.
use lnurlcash_core.Common.{
  ℕ, Bool, List, ◌++◌, Option, none, some, ◌==◌, ltb, if◌then◌else◌, length, get_elem?, and_then,
  map_option, is_some, is_some_and, or_else, option_filter,
}
use lnurlcash_core.Common.Text.{Text, codes, byte_len, trim, lower, strip_prefix, split_last}
use lnurlcash_core.Deps.{BechApi}
use lnurlcash_core.LongBech32.{Checksum, bech32m, encode, decode}
use lnurlcash_core.Recoverable.{encode_amount_suffix, decode_amount_suffix}

abbrev max_bech32_chars : ℕ
max_bech32_chars = 8192

pub record Cs1 : Type 0 where
  pub amount_msat : ℕ
  pub signature : List ℕ

pub data DecodedCk1 : Type 0 where
  current legacy : List ℕ → DecodedCk1

module _ (bech : BechApi Checksum) where
  unfoldable pub encode_bytes : Text → List ℕ → Option Text
  encode_bytes hrp bytes = encode bech bech32m hrp bytes

  unfoldable pub decode_bytes : Text → Text → Option (List ℕ)
  decode_bytes hrp value =
      let trimmed = trim value in
      if ltb max_bech32_chars (byte_len trimmed) then none else decode bech bech32m hrp trimmed

  unfoldable pub decode_fixed : ℕ → Text → Text → Option (List ℕ)
  decode_fixed n hrp value = option_filter (decode_bytes hrp value) (λ bytes. length bytes == n)

  unfoldable pub encode_cp1 : List ℕ → Option Text
  encode_cp1 output_key = encode_bytes (codes "cp") output_key

  -- `is_x_only_point` of src/spend.rs says whether a key is the x coordinate of a curve point.
  unfoldable pub decode_cp1 : (List ℕ → Bool) → Text → Option (List ℕ)
  decode_cp1 is_x_only_point value =
      option_filter (decode_fixed 32 (codes "cp") value) is_x_only_point

  unfoldable pub is_cp1 : (List ℕ → Bool) → Text → Bool
  is_cp1 is_x_only_point value = is_some (decode_cp1 is_x_only_point value)

  unfoldable pub encode_ck1 : List ℕ → Option Text
  encode_ck1 payload = encode_bytes (codes "ck") payload

  unfoldable pub decode_ck1 : Text → Option DecodedCk1
  decode_ck1 value = and_then (decode_bytes (codes "ck") value) λ bytes.
      if length bytes == 96
      then some (current bytes)
      else if length bytes == 65
      then some (legacy bytes)
      else none

  unfoldable pub is_ck1 : Text → Bool
  is_ck1 value = is_some (decode_ck1 value)

  unfoldable pub encode_cs1 : List ℕ → Option Text
  encode_cs1 signature = encode_bytes (codes "cs") signature

  unfoldable pub decode_cs1 : Text → Option (List ℕ)
  decode_cs1 value = decode_fixed 65 (codes "cs") value

  unfoldable pub is_cs1 : Text → Bool
  is_cs1 value = is_some (decode_cs1 value)

  unfoldable pub encode_cs1_with_amount : ℕ → List ℕ → Option Text
  encode_cs1_with_amount amount_msat signature =
      encode_bytes (codes "cs" ++ encode_amount_suffix amount_msat) signature

  unfoldable pub decode_cs1_with_amount : Text → Option Cs1
  decode_cs1_with_amount value =
      let trimmed = trim value in
      and_then (split_last b'1' trimmed) λ parts.
        let hrp = lower parts.0 in
        and_then (strip_prefix (codes "cs") hrp) λ suffix.
          and_then (decode_amount_suffix suffix) λ amount_msat.
            and_then (decode_fixed 65 hrp trimmed) λ signature.
              if is_some_and (get_elem? signature 64) (ltb 3)
              then none
              else some (record { amount_msat = amount_msat; signature = signature })

  unfoldable pub is_cs1_with_amount : Text → Bool
  is_cs1_with_amount value = is_some (decode_cs1_with_amount value)

  unfoldable pub decode_any_cs1 : Text → Option (List ℕ)
  decode_any_cs1 value =
      or_else (map_option (λ (cs1 : Cs1). cs1.signature) (decode_cs1_with_amount value))
        (decode_cs1 value)

  unfoldable pub is_any_cs1 : Text → Bool
  is_any_cs1 value = is_some (decode_any_cs1 value)
