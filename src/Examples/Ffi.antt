-- ===== src/Examples/Ffi.antt =====
-- The theorems on src/ffi.rs at a concrete spend and a service that refuses.
use lnurlcash_core.Common.{ℕ, ◌≤◌, true, List, [], ◌∷◌, ◌++◌, ◌≡◌, refl, arith, ok, some}
use lnurlcash_core.Common.Text.{Text, codes, byte_len, text_eq, take_while, after_first}
use lnurlcash_core.Samples.Curve.{curve}
use lnurlcash_core.Samples.Shifted.{
  shifted, plain_hex, plain_hex-HexLaw, shifted_bech, shifted_bech-BechLaw,
}
use lnurlcash_core.Samples.{callback, secret, other_secret, sample_deps, sample_config, untouched}
use lnurlcash_core.Samples.Url.{sample_url}
use lnurlcash_core.Urls.{is_allowed_service_url}
use lnurlcash_core.Protocol.Types.{Request}
use lnurlcash_core.Client.Monad.{body_text, Transport, ClientConfig}
use lnurlcash_core.Client.Run.{attempts_of, run_mutation}
use lnurlcash_core.Client.Mutate.{is_sendable}
use lnurlcash_core.Ffi.{rotate, kind_of, convert, ffi_mutation, ffi_policy}
use lnurlcash_core.Ffi.Answers.{parse_mutation}
use lnurlcash_core.Ffi.Client.{run_mutation-AgreesWith}
use lnurlcash_core.Spend.{nums_h}
use lnurlcash_core.Spend as Spend
use lnurlcash_core.Recoverable.Cw1.{Cw1, item_bytes, items_bytes, cw1_payload, take_bytes}
use lnurlcash_core.Recoverable.Cw1 as Recoverable
use lnurlcash_core.Recoverable.Strings.{encode_bytes}
use lnurlcash_core.LongBech32.{encode}
use lnurlcash_core.Ffi.Bytes.{ffi_cw1, encode_cw1, decode_cw1}
use lnurlcash_core.Ffi.RoundTrip.{encode_cw1-encoded, decode_cw1-encode_cw1}

abbrev leaf_spend : Cw1
leaf_spend = record {
  locktime = 500_000_000;
  sequence = 0;
  script = 0x51 ∷ [];
  control_block = 0xc1 ∷ nums_h;
  witness = (7 ∷ 8 ∷ []) ∷ [];
}

abbrev payload : List ℕ
payload =
    29
    ∷ 205
    ∷ 101
    ∷ 0
    ∷ 0
    ∷ 0
    ∷ 0
    ∷ 0
    ∷ 0
    ∷ 1
    ∷ 0x51
    ∷ 0
    ∷ 33
    ∷ 0xc1
    ∷ (nums_h ++ 0 ∷ 2 ∷ 7 ∷ 8 ∷ [])

abbrev string : Text
string = 99 ∷ 119 ∷ 49 ∷ shifted payload

commits :
    Spend.output_key_of plain_hex curve leaf_spend.script leaf_spend.control_block ≡ some nums_h
unfolding Spend.output_key_of Spend.fold_path Spend.taproot_tweak Spend.tweak_scalar take_bytes
commits = refl

encoded : encode_cw1 plain_hex curve shifted_bech (ffi_cw1 plain_hex leaf_spend) ≡ ok (some string)
unfolding Recoverable.encode_cw1 cw1_payload items_bytes item_bytes encode_bytes encode text_eq
    codes
encoded =
    encode_cw1-encoded plain_hex plain_hex-HexLaw curve shifted_bech shifted_bech-BechLaw leaf_spend
      refl

short : byte_len string ≤ 8192
unfolding byte_len
short = omega arith

decode_cw1-encode_cw1_example :
    decode_cw1 plain_hex curve shifted_bech string ≡ some (ffi_cw1 plain_hex leaf_spend)
decode_cw1-encode_cw1_example =
    decode_cw1-encode_cw1 plain_hex plain_hex-HexLaw curve shifted_bech shifted_bech-BechLaw
      leaf_spend nums_h string refl (omega arith) (omega arith) commits encoded short

-- A client that does not retry, and a service that confirms.
abbrev once : ClientConfig
once = record sample_config { mutation_retries = 0 }

abbrev rotation : Request
rotation = record { url = callback; new_secrets = other_secret ∷ []; outputs = secret ∷ [] }

abbrev confirms : Transport
confirms sent url = body_text (codes "confirmation")

can_send : is_sendable sample_deps confirms once rotation ≡ true
unfolding is_allowed_service_url sample_url text_eq take_while codes after_first
can_send = refl

single : attempts_of once (kind_of rotate) ≡ 0
unfolding kind_of
single = refl

run_mutation-AgreesWith_example :
    convert ffi_mutation
      (run_mutation sample_deps confirms once rotation (kind_of rotate) untouched).0
    ≡ parse_mutation sample_deps
        (codes "confirmation")
        (other_secret ∷ [])
        rotate
        (secret ∷ [])
        (ffi_policy once.policy)
run_mutation-AgreesWith_example =
    run_mutation-AgreesWith sample_deps confirms once rotation rotate untouched can_send single
