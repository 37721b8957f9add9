-- ===== src/Samples.antt =====
-- Concrete instances of what the crate calls, and a service, for the examples.
pub mod Url
pub mod Curve
pub mod Shifted
use lnurlcash_core.Common.{
  ℕ, Bool, true, false, List, [], ◌∷◌, Option, none, some, if◌then◌else◌, is_some, and_then,
}
use lnurlcash_core.Common.Text.{Text, codes, text_eq, strip_prefix}
use lnurlcash_core.Common.Decimal.{parse_u64}
use lnurlcash_core.Deps.{JsonApi, CryptoApi, SpendApi, opens, Deps}
use lnurlcash_core.Protocol.Types.{default_policy, WithdrawRequestInfo}
use lnurlcash_core.Client.Monad.{Reply, timed_out, body_text, Transport, ClientConfig, Net}
use lnurlcash_core.Samples.Url.{sample_url}

-- A string, a number, or an object, field by field.
pub data Json : Type 0 where
  word : Text → Json
  amount : ℕ → Json
  empty : Json
  member : Text → Json → Json → Json

abbrev field : Text → Json → Option Json
field key (member k v fields) =
    let later = field key fields in if text_eq k key then some v else later
field key _ = none

abbrev pub confirmation : Json
confirmation = member (codes "status") (word (codes "OK")) empty

abbrev pub refusal : Json
refusal =
    member (codes "status") (word (codes "ERROR"))
      (member (codes "reason") (word (codes "Output already in use.")) empty)

abbrev pub secret : Text
secret = codes "00112233445566778899aabbccddeeff00112233445566778899aabbccddeeff"

abbrev pub other_secret : Text
other_secret = codes "ff112233445566778899aabbccddeeff00112233445566778899aabbccddeeff"

abbrev pub mint_key : Text
mint_key = codes "0200112233445566778899aabbccddeeff00112233445566778899aabbccddeeff"

abbrev pub callback : Text
callback = codes "https://m.example/cb"

abbrev pub note_state : Json
note_state = member (codes "tag") (word (codes "withdrawRequest")) (
    member (codes "callback") (word callback) (
      member (codes "k1") (word secret) (
        member (codes "maxWithdrawable") (amount 5000)
          (member (codes "mintPubkey") (word mint_key) empty))))

abbrev pub sample_json : JsonApi Json
sample_json = record {
  get = λ v key. field key v;
  value_str = λ v. elim v [ word s ↦ some s | _ ↦ none ];
  value_u64 = λ v. elim v [ amount n ↦ some n | _ ↦ none ];
  value_bool = λ v. none;
  value_array = λ v. none;
  is_null = λ v. false;
  is_boolean = λ v. false;
  is_string = λ v. elim v [ word s ↦ true | _ ↦ false ];
  from_str = λ s.
      if text_eq s (codes "confirmation")
      then some confirmation
      else if text_eq s (codes "note")
      then some note_state
      else if text_eq s (codes "refusal")
      then some refusal
      else none;
}

abbrev pub sample_crypto : CryptoApi
sample_crypto = record { hex_decode = some; hex_encode = λ s. s; sha256 = λ s. s }

-- A certificate `cs1` names its amount in decimal.
abbrev pub sample_spend : SpendApi
sample_spend = record {
  note_id_of = some;
  spend_domain_of = λ s. none;
  check_spend = λ s domain. some opens;
  names_note = λ s. true;
  is_spend = λ s. false;
  is_cp1 = λ s. is_some (strip_prefix (codes "cp1") s);
  cs1_amount = λ s. and_then (strip_prefix (codes "cs1") s) parse_u64;
}

abbrev pub sample_deps : Deps Json Text
sample_deps = record {
  json = sample_json;
  url = sample_url;
  crypto = sample_crypto;
  spend = sample_spend;
}

abbrev pub sample_config : ClientConfig
sample_config = record {
  offline = false;
  secret_source = λ n. other_secret;
  policy = default_policy;
  mutation_retries = 2;
}

-- A service that loses every answer, two that lose the first one only, and one that shows a note and then loses every answer.
abbrev pub mute : Transport
mute sent url = timed_out

abbrev pub declining : Transport
declining [] url = timed_out
declining (_ ∷ _) url = body_text (codes "refusal")

abbrev pub lossy : Transport
lossy [] url = timed_out
lossy (_ ∷ _) url = body_text (codes "confirmation")

abbrev pub silent : Transport
silent [] url = body_text (codes "note")
silent (_ ∷ _) url = timed_out

abbrev pub untouched : Net
untouched = record { sent = []; drawn = 0 }

-- What `note_state` says.
abbrev pub shown : WithdrawRequestInfo
shown = record {
  callback = callback;
  k1 = secret;
  max_withdrawable = 5000;
  min_withdrawable = 0;
  default_description = none;
  mint_pubkey = some mint_key;
  signature = none;
}
