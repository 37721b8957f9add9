-- ===== src/Examples/Spend.antt =====
-- The theorems on src/spend.rs at concrete scripts, clocks and spends.
use lnurlcash_core.Common.{
  ℕ, ◌-◌, ◌%◌, List, [], ◌∷◌, ◌++◌, none, some, ◌≡◌, ◌↔◌, refl, arith, map_option,
}
use lnurlcash_core.Common.Text.{
  split_last, text_eq, Text, codes, byte_len, trim, trim_start, trim_end, drop_while, is_whitespace,
  is_ascii_hexdigit, is_ascii_digit, is_ascii_uppercase, lower, lower_char,
}
use lnurlcash_core.Deps.{opens}
use lnurlcash_core.Secrets.{is_preimage}
use lnurlcash_core.Samples.{secret}
use lnurlcash_core.Samples.Url.{sample_url}
use lnurlcash_core.Samples.Curve.{hashing, hashing-sized, curve, plain_bech}
use lnurlcash_core.Recoverable.Cw1.{take_bytes}
use lnurlcash_core.Spend.{
  tapleaf_version, nums_h, BearerNote, bearer_note, bearer_leaf, taproot_tweak, tweak_scalar,
  is_x_only_point,
}
use lnurlcash_core.LongBech32.{decode}
use lnurlcash_core.Recoverable.Strings.{decode_bytes, decode_ck1}
use lnurlcash_core.Spend.Leaf.{check_leaf}
use lnurlcash_core.Spend.Leaf.Reference.{IsClean, check_leaf-IsClean}
use lnurlcash_core.Spend.Clock.{check_time_claim, IsDue, check_time_claim-IsDue}
use lnurlcash_core.Spend.Sighash.{tap_sighash, spend_sig_msg, spend_prevout}
use lnurlcash_core.Spend.Sighash.Binding.{Signed, SameSpend, message, tap_sighash-SameSpend}
use lnurlcash_core.Spend.Check.{
  key_path, spend_key, hex32, bearer_hash, decode_note, decode_spend, check_spend,
}
use lnurlcash_core.Spend.Check.Bearer.{check_spend-bearer_note}
use lnurlcash_core.Spend.Check.Verdict.{Opening, check_spend-Opening}

-- A push of an `OP_SUCCESS80` as data, and a drop.
abbrev pushing : List ℕ
pushing = 1 ∷ 80 ∷ 117 ∷ []

check_leaf-IsClean_example :
    (check_leaf 193 pushing ≡ none) ↔ (193 - 193 % 2 ≡ tapleaf_version) × IsClean pushing 0
check_leaf-IsClean_example = check_leaf-IsClean 193 pushing (omega arith)

-- Two units of 512 seconds, behind a lock that has passed.
check_time_claim-IsDue_example :
    (check_time_claim 1_700_000_000 4_194_306 1_800_000_000 1_799_999_000 ≡ none)
    ↔ IsDue 1_700_000_000 4_194_306 1_800_000_000 1_799_999_000
check_time_claim-IsDue_example =
    check_time_claim-IsDue 1_700_000_000 4_194_306 1_800_000_000 1_799_999_000 (omega arith)
      (omega arith) (omega arith)

abbrev upper_signed : Signed
upper_signed = record {
  output_key = nums_h;
  domain = codes "Mint";
  locktime = 7;
  sequence = 9;
  leaf_script = some pushing;
}

abbrev lower_signed : Signed
lower_signed = record {
  output_key = nums_h;
  domain = codes "mint";
  locktime = 7;
  sequence = 9;
  leaf_script = some pushing;
}

same_message : message hashing upper_signed ≡ message hashing lower_signed
unfolding spend_sig_msg spend_prevout lower lower_char is_ascii_uppercase codes
same_message = refl

tap_sighash-SameSpend_example : SameSpend upper_signed lower_signed
unfolding tap_sighash spend_sig_msg spend_prevout lower lower_char is_ascii_uppercase codes
tap_sighash-SameSpend_example =
    tap_sighash-SameSpend hashing hashing-sized upper_signed lower_signed
      (record { locktime = omega arith; sequence = omega arith })
      (record { locktime = omega arith; sequence = omega arith })
      (λ _. refl, (λ _. refl, (λ _. refl, (λ _. refl, (λ _. refl, (λ _. refl, tt)))))) refl

abbrev preimage : List ℕ
preimage =
    0x00 ∷ 0x11 ∷ 0x22 ∷ 0x33 ∷ 0x44 ∷ 0x55 ∷ 0x66 ∷ 0x77 ∷ 0x88 ∷ 0x99 ∷ 0xaa ∷ 0xbb ∷ 0xcc ∷ 0xdd
    ∷ 0xee ∷ 0xff ∷ 0x00 ∷ 0x11 ∷ 0x22 ∷ 0x33 ∷ 0x44 ∷ 0x55 ∷ 0x66 ∷ 0x77 ∷ 0x88 ∷ 0x99 ∷ 0xaa
    ∷ 0xbb ∷ 0xcc ∷ 0xdd ∷ 0xee ∷ 0xff ∷ []

abbrev note : BearerNote
note = record { output_key = nums_h; control_block = 193 ∷ nums_h; leaf = bearer_leaf preimage }

secret_hex : hex32 hashing (trim secret) ≡ some preimage
unfolding hex32 is_preimage byte_len trim trim_start trim_end drop_while is_whitespace
    is_ascii_hexdigit is_ascii_digit codes
secret_hex = refl

plain_hex : hex32 hashing secret ≡ some preimage
unfolding hex32 is_preimage byte_len trim trim_start trim_end drop_while is_whitespace
    is_ascii_hexdigit is_ascii_digit codes
plain_hex = refl

note_found : bearer_note hashing curve preimage ≡ some note
unfolding bearer_note taproot_tweak tweak_scalar
note_found = refl

check_spend-bearer_note_example :
    (check_spend hashing curve plain_bech sample_url secret (codes "m.example")
      ≡ some (record { output_key = nums_h; verdict = opens }))
    × (map_option (bearer_hash hashing curve) (decode_spend hashing curve plain_bech secret)
        ≡ some (some preimage))
    × (decode_note hashing curve plain_bech secret ≡ some nums_h)
check_spend-bearer_note_example =
    check_spend-bearer_note hashing curve plain_bech sample_url hashing-sized secret secret
      (codes "m.example") preimage note secret_hex plain_hex note_found

-- A key path whose signature begins with what it signs.
abbrev signature : List ℕ
signature =
    84 ∷ 97 ∷ 112 ∷ 83 ∷ 105 ∷ 103 ∷ 104 ∷ 97 ∷ 115 ∷ 104 ∷ 0 ∷ 0 ∷ 0 ∷ 0 ∷ 0 ∷ 0 ∷ 0 ∷ 0 ∷ 0 ∷ 0
    ∷ 0 ∷ 0 ∷ 0 ∷ 0 ∷ 0 ∷ 0 ∷ 0 ∷ 0 ∷ 0 ∷ 0 ∷ 0 ∷ 0 ∷ 0 ∷ 0 ∷ 0 ∷ 0 ∷ 0 ∷ 0 ∷ 0 ∷ 0 ∷ 0 ∷ 0 ∷ 0 ∷ 0
    ∷ 0 ∷ 0 ∷ 0 ∷ 0 ∷ 0 ∷ 0 ∷ 0 ∷ 0 ∷ 0 ∷ 0 ∷ 0 ∷ 0 ∷ 0 ∷ 0 ∷ 0 ∷ 0 ∷ 0 ∷ 0 ∷ 0 ∷ 0 ∷ []

abbrev ck1 : Text
ck1 = codes "ck1" ++ (nums_h ++ signature)

ck1_decodes : decode_spend hashing curve plain_bech ck1 ≡ some (key_path nums_h signature)
unfolding decode_spend hex32 is_preimage byte_len trim trim_start trim_end drop_while is_whitespace
    is_ascii_hexdigit is_ascii_digit codes decode_ck1 decode_bytes decode split_last text_eq
    is_x_only_point take_bytes
ck1_decodes = refl

check_spend-Opening_example :
    (check_spend hashing curve plain_bech sample_url ck1 (codes "m.example")
      ≡ some (record { output_key = nums_h; verdict = opens }))
    ↔ Opening hashing curve plain_bech sample_url (codes "m.example") (key_path nums_h signature)
unfolding spend_key
check_spend-Opening_example =
    check_spend-Opening hashing curve plain_bech sample_url (codes "m.example") ck1 ck1_decodes
