-- ===== src/Examples/Signature.antt =====
-- The theorems on src/signature.rs at concrete certificates.
use lnurlcash_core.Common.{ℕ, true, [], ◌∷◌, ◌++◌, some, ◌≡◌, ◌≢◌, ◌↔◌, refl, arith}
use lnurlcash_core.Common.Text.{
  Text, codes, text_eq, byte_len, trim, trim_start, trim_end, drop_while, take_while, is_whitespace,
  is_ascii_hexdigit, is_ascii_digit, is_ascii_uppercase, lower, lower_char, contains, after_first,
  upper, upper_char, is_ascii_lowercase, starts_with, ends_with, split_last, strip_prefix,
}
use lnurlcash_core.Common.Decimal.{
  decimal, digits_before, parse_u64, scan, scan_digits, decimal_u128,
}
use lnurlcash_core.Deps.{opens}
use lnurlcash_core.Secrets.{is_preimage}
use lnurlcash_core.Samples.{secret, other_secret}
use lnurlcash_core.Samples.Url.{sample_url}
use lnurlcash_core.Samples.Curve.{hashing, curve, plain_bech}
use lnurlcash_core.Urls.{from_lud17}
use lnurlcash_core.Urls.Resolve.{is_bech32_lnurl}
use lnurlcash_core.LongBech32.{decode}
use lnurlcash_core.Recoverable.{split_unit, scaled, encode_amount_suffix, decode_amount_suffix}
use lnurlcash_core.Recoverable.Strings.{decode_bytes, decode_fixed, decode_cs1_with_amount}
use lnurlcash_core.Recoverable.Cw1.{take_bytes}
use lnurlcash_core.Recoverable.Ownership.{lightning_signed_digest}
use lnurlcash_core.Spend.{
  nums_h, fold_path, tweak_scalar, taproot_tweak, output_key_of, bearer_leaf, bearer_hash_of_leaf,
  bearer_note, bearer_cw1,
}
use lnurlcash_core.Spend.Leaf.{is_op_success, skip_of, walk, check_leaf}
use lnurlcash_core.Spend.Check.{
  spend_key, hex32, script_path_verdict, bearer_hash, decode_spend, verdict_of, check_spend,
}
use lnurlcash_core.Spend.Sighash.{spend_domain_of}
use lnurlcash_core.Signature.{
  NoteCheck, output_key, is_hex_id, certificate_bytes, layout_recovers, recovers_to,
  note_signature_digest_for_hash, certified_over, note_signature_message_for_hash,
  legacy_note_signature_message_for_hash, verify_note_signature_hash, check_note,
}
use lnurlcash_core.Signature.Message.{
  note_signature_message_for_hash-injective, note_signature_message_for_hash-legacy,
}
use lnurlcash_core.Signature.Certificate.{IsCertified, verify_note_signature_hash-IsCertified}
use lnurlcash_core.Signature.Note.{IsChecked, check_note-IsChecked}

abbrev domain : Text
domain = codes "https://m.example/w"

abbrev same_host : Text
same_host = codes "lnurlw://M.Example/v"

is_hex_secret : is_hex_id (trim secret) ≡ true
unfolding is_hex_id byte_len trim trim_start trim_end drop_while is_whitespace is_ascii_hexdigit
    is_ascii_digit codes
is_hex_secret = refl

is_hex_other : is_hex_id (trim other_secret) ≡ true
unfolding is_hex_id byte_len trim trim_start trim_end drop_while is_whitespace is_ascii_hexdigit
    is_ascii_digit codes
is_hex_other = refl

abbrev signed_message : Text
signed_message = codes "LNURLcash:" ++ (codes "m.example" ++ b':' ∷ (codes "5000" ++ b':' ∷ secret))

secret_message :
    note_signature_message_for_hash sample_url plain_bech secret domain 5000 ≡ some signed_message
unfolding note_signature_message_for_hash spend_domain_of sample_url is_bech32_lnurl from_lud17
    contains after_first take_while upper upper_char is_ascii_lowercase starts_with strip_prefix
    text_eq lower lower_char is_ascii_uppercase trim trim_start trim_end drop_while is_whitespace
    decimal digits_before codes
secret_message = refl

same_message :
    note_signature_message_for_hash sample_url plain_bech secret same_host 5000
    ≡ some signed_message
unfolding note_signature_message_for_hash spend_domain_of sample_url is_bech32_lnurl from_lud17
    contains after_first take_while upper upper_char is_ascii_lowercase starts_with strip_prefix
    text_eq lower lower_char is_ascii_uppercase trim trim_start trim_end drop_while is_whitespace
    decimal digits_before codes ends_with
same_message = refl

note_signature_message_for_hash-injective_example :
    (spend_domain_of sample_url plain_bech domain ≡ spend_domain_of sample_url plain_bech same_host)
    × (◌≡◌ {A = ℕ} 5000 5000)
    × (lower (trim secret) ≡ lower (trim secret))
note_signature_message_for_hash-injective_example =
    note_signature_message_for_hash-injective sample_url plain_bech secret secret domain same_host
      5000 5000 is_hex_secret is_hex_secret (omega arith) (omega arith) secret_message same_message

note_signature_message_for_hash-legacy_example :
    note_signature_message_for_hash sample_url plain_bech secret domain 5000
    ≢ some (legacy_note_signature_message_for_hash other_secret 6000)
note_signature_message_for_hash-legacy_example =
    note_signature_message_for_hash-legacy sample_url plain_bech secret other_secret domain 5000
      6000 is_hex_secret is_hex_other (omega arith)

-- A certificate of 5000 msat whose signature is a row of letters, and the key that it recovers to.
abbrev letters : Text
letters = codes "aaaaaaaaaaaaaaaaaaaaaaaaaaaaaaaaaaaaaaaaaaaaaaaaaaaaaaaaaaaaaaaa"

abbrev certificate : Text
certificate = codes "cs50n1" ++ (letters ++ 1 ∷ [])

abbrev mint : Text
mint = codes "026161616161616161616161616161616161616161616161616161616161616161"

verify_note_signature_hash-IsCertified_example :
    (verify_note_signature_hash hashing curve plain_bech sample_url secret domain 5000 certificate
        mint
      ≡ true)
    ↔ IsCertified hashing curve plain_bech sample_url secret domain 5000 certificate mint
verify_note_signature_hash-IsCertified_example =
    verify_note_signature_hash-IsCertified hashing curve plain_bech sample_url secret domain 5000
      certificate mint

abbrev checked : NoteCheck
checked = record { output_key = nums_h; spend = opens; certificate = output_key }

secret_checked :
    check_note hashing curve plain_bech sample_url secret domain 5000 certificate mint
    ≡ some checked
unfolding check_note check_spend decode_spend hex32 bearer_cw1 bearer_note taproot_tweak
    tweak_scalar output_key_of take_bytes fold_path bearer_hash_of_leaf bearer_hash bearer_leaf
    spend_key verdict_of script_path_verdict check_leaf walk skip_of is_op_success certified_over
    verify_note_signature_hash note_signature_digest_for_hash certificate_bytes
    decode_cs1_with_amount decode_amount_suffix decode_fixed decode_bytes decode recovers_to
    layout_recovers lightning_signed_digest is_hex_id byte_len trim trim_start trim_end drop_while
    is_whitespace is_ascii_hexdigit is_preimage is_ascii_digit codes split_last split_unit scaled
    parse_u64 encode_amount_suffix note_signature_message_for_hash spend_domain_of sample_url
    is_bech32_lnurl from_lud17 contains after_first take_while upper upper_char is_ascii_lowercase
    starts_with strip_prefix text_eq lower lower_char is_ascii_uppercase decimal digits_before scan
    scan_digits decimal_u128
secret_checked = refl

check_note-IsChecked_example :
    IsChecked hashing curve plain_bech sample_url domain 5000 certificate mint secret checked
check_note-IsChecked_example =
    check_note-IsChecked hashing curve plain_bech sample_url domain 5000 certificate mint secret
      secret_checked
