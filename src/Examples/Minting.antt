-- ===== src/Examples/Minting.antt =====
-- The theorems on the readers of a payRequest and of an invoice in src/protocol.rs.
use lnurlcash_core.Common.{ℕ, true, false, [], none, some, ◌≡◌, refl, arith, ok}
use lnurlcash_core.Common.Text.{
  Text, codes, text_eq, lower, lower_char, is_ascii_uppercase, is_ascii_digit, trim, trim_start,
  trim_end, drop_while, take_while, is_whitespace, strip_prefix, split_last, byte_len,
}
use lnurlcash_core.Common.Decimal.{scan_digits, scan, decimal, digits_before}
use lnurlcash_core.Bolt11.{
  decode_bolt11_amount_msat, split_at_separator, parse_hrp, strip_network_prefix, to_msat,
}
use lnurlcash_core.Bolt11.Amount.{Names, mainnet, nano}
use lnurlcash_core.Fees.Token.{parse_mint_fee}
use lnurlcash_core.Protocol.Types.{PayRequestInfo, InvoiceResult}
use lnurlcash_core.Protocol.Fields.{as_str, as_u64, field_is, reject_error}
use lnurlcash_core.Protocol.Minting.{
  withdraw_link_of, check_invoiced, parse_pay_request, parse_invoice,
}
use lnurlcash_core.Protocol.Minting.Sound.{
  IsMintable, parse_pay_request-IsMintable, parse_invoice-Names,
}
use lnurlcash_core.Samples.{Json, word, amount, empty, member, callback, sample_deps}

abbrev pay_request : Json
pay_request = member (codes "tag") (word (codes "payRequest")) (
    member (codes "callback") (word callback) (
      member (codes "withdrawLink") (word callback)
        (member (codes "commentAllowed") (amount 64) empty)))

abbrev offered : PayRequestInfo
offered = record {
  callback = callback;
  min_sendable = 0;
  max_sendable = 0;
  metadata = [];
  withdraw_link = some callback;
  mint_pubkey = none;
  mint_fee = none;
  comment_allowed = some 64;
  mint_to_hash = false;
}

parse_pay_request-IsMintable_example : IsMintable sample_deps offered
unfolding parse_pay_request withdraw_link_of parse_mint_fee reject_error field_is as_str as_u64
    codes text_eq
parse_pay_request-IsMintable_example =
    parse_pay_request-IsMintable sample_deps pay_request offered refl

abbrev invoice : Text
invoice = codes "lnbc10n1qqq"

abbrev invoiced : InvoiceResult
invoiced = record { pr = invoice; verify = none; disposable = true }

ten_nano : Names invoice 1000
unfolding lower lower_char is_ascii_uppercase codes trim trim_start trim_end drop_while
    is_whitespace decimal digits_before
ten_nano = record {
  network = codes "bc";
  value = 10;
  multiplier = codes "n";
  tenths = 1000;
  data_part = codes "qqq";
  known = mainnet;
  worth = nano;
  written = refl;
  last = refl;
  number = omega arith;
  exact = omega arith;
  fits = omega arith;
}

abbrev answer : Text → Json
answer pr = member (codes "pr") (word pr) empty

accepted : parse_invoice sample_deps (answer invoice) 1000 ≡ ok invoiced
unfolding parse_invoice check_invoiced decode_bolt11_amount_msat split_at_separator parse_hrp
    strip_network_prefix to_msat reject_error field_is as_str codes text_eq lower lower_char
    is_ascii_uppercase is_ascii_digit trim trim_start trim_end drop_while take_while is_whitespace
    strip_prefix split_last byte_len scan_digits scan
accepted = refl

parse_invoice-Names_example : ◌≡◌ {A = ℕ} 1000 1000
parse_invoice-Names_example =
    parse_invoice-Names sample_deps (answer invoice) 1000 invoiced 1000 accepted ten_nano

-- An amount of 1.5 msat, and one beyond a u64, pass for any amount that was requested.
abbrev fraction : Text
fraction = codes "lnbc15p1qqq"

abbrev excess : Text
excess = codes "lnbc3000000001qqq"

unread_passes :
    (requested : ℕ)
    → (check_invoiced sample_deps fraction requested ≡ ok tt)
      × (check_invoiced sample_deps excess requested ≡ ok tt)
unfolding check_invoiced decode_bolt11_amount_msat split_at_separator parse_hrp strip_network_prefix
    to_msat reject_error field_is as_str codes text_eq lower lower_char is_ascii_uppercase
    is_ascii_digit trim trim_start trim_end drop_while take_while is_whitespace strip_prefix
    split_last byte_len scan_digits scan
unread_passes requested = (refl, refl)
