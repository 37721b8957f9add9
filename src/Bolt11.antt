-- ===== src/Bolt11.antt =====
-- src/bolt11.rs: the amount in an invoice's human-readable part.
pub mod Amount
use lnurlcash_core.Common.{
  ℕ, ◌*◌, ◌/◌, ◌%◌, Bool, ◌||◌, not, List, [], ◌∷◌, Option, none, some, ltb, leb, ◌==◌,
  if◌then◌else◌, all, is_some, and_then, map_option, or_else, false,
}
use lnurlcash_core.Common.Text.{
  Text, codes, text_eq, byte_len, lower, trim, strip_prefix, is_ascii_digit, is_ascii_lowercase,
  eq_ignore_case, drop_while, take_while, split_last,
}
use lnurlcash_core.Common.Decimal.{max_u64, scan_digits}

unfoldable pub same_invoice : Text → Text → Bool
same_invoice a b = eq_ignore_case (trim a) (trim b)

-- The networks are tried in order, so that "bcrt" wins over "bc".
abbrev pub networks : List Text
networks = codes "bcrt" ∷ codes "bc" ∷ codes "tbs" ∷ codes "tb" ∷ codes "sb" ∷ []

abbrev pub strip_first : List Text → Text → Option Text
strip_first [] rest = none
strip_first (p ∷ ps) rest = or_else (strip_prefix p rest) (strip_first ps rest)

unfoldable pub strip_network_prefix : Text → Option Text
strip_network_prefix lowered = and_then (strip_prefix (codes "ln") lowered) (strip_first networks)

unfoldable pub split_at_separator : Text → Option (Text × Text)
split_at_separator lowered =
    and_then (split_last b'1' lowered)
      λ parts. if ltb (byte_len parts.0) 2 then none else some parts

abbrev pub is_multiplier : Text → Bool
is_multiplier m =
    text_eq m []
    || text_eq m (codes "m")
    || text_eq m (codes "u")
    || text_eq m (codes "n")
    || text_eq m (codes "p")

unfoldable pub parse_hrp : Text → Option (Option ℕ × Text)
unfolding strip_network_prefix
parse_hrp hrp = and_then (strip_network_prefix hrp) λ rest.
    let digits = take_while is_ascii_digit rest in
    let multiplier = drop_while is_ascii_digit rest in
    if not (is_multiplier multiplier)
    then none
    else if text_eq digits []
    then some (none, multiplier)
    else map_option (λ n. (some n, multiplier)) (scan_digits max_u64 digits)

unfoldable pub is_bolt11_invoice : Text → Bool
unfolding split_at_separator parse_hrp
is_bolt11_invoice value = elim (split_at_separator (lower (trim value))) [
  | none ↦ false
  | some (hrp, body) ↦
      if text_eq body [] || not (all (λ b. is_ascii_lowercase b || is_ascii_digit b) body)
      then false
      else is_some (parse_hrp hrp)
]

abbrev pub checked_mul : ℕ → ℕ → Option ℕ
checked_mul a b = if leb (a * b) max_u64 then some (a * b) else none

-- A pico-BTC is a tenth of a msat.
unfoldable pub to_msat : ℕ → Text → Option ℕ
to_msat value multiplier =
    if text_eq multiplier []
    then checked_mul value 100_000_000_000
    else if text_eq multiplier (codes "m")
    then checked_mul value 100_000_000
    else if text_eq multiplier (codes "u")
    then checked_mul value 100_000
    else if text_eq multiplier (codes "n")
    then checked_mul value 100
    else if text_eq multiplier (codes "p")
    then (if value % 10 == 0 then some (value / 10) else none)
    else none

unfoldable pub decode_bolt11_amount_msat : Text → Option ℕ
unfolding split_at_separator parse_hrp to_msat
decode_bolt11_amount_msat pr = and_then (split_at_separator (lower (trim pr))) λ parts.
    and_then (parse_hrp parts.0) λ amount. and_then amount.0 λ value. to_msat value amount.1
