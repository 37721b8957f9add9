-- ===== src/Signature.antt =====
-- The certificates of src/signature.rs: what a service signs of a note, and how it is checked offline.
pub mod Message
pub mod Certificate
pub mod Note
pub mod Address
use lnurlcash_core.Common.{
  ℕ, Bool, true, false, not, ◌&&◌, ◌||◌, List, [], ◌∷◌, ◌++◌, Option, none, some, ◌==◌,
  if◌then◌else◌, length, get_elem?, take, drop, all, is_some_and, and_then, map_option,
  option_filter, or_else,
}
use lnurlcash_core.Common.Text.{
  Text, codes, text_eq, byte_len, trim, lower, strip_prefix, split_last, is_ascii_hexdigit,
}
use lnurlcash_core.Common.Decimal.{decimal}
use lnurlcash_core.Deps.{CryptoApi, CurveApi, UrlApi, BechApi, SpendVerdict}
use lnurlcash_core.LongBech32.{Checksum, bech32m, decode}
use lnurlcash_core.Secrets.{is_preimage}
use lnurlcash_core.Recoverable.Strings.{Cs1, decode_cs1, decode_cs1_with_amount}
use lnurlcash_core.Recoverable.Ownership.{lightning_signed_digest}
use lnurlcash_core.Recoverable.Naming.{note_id_of}
use lnurlcash_core.Spend.Sighash.{spend_domain_of}
use lnurlcash_core.Spend.Check.{
  SpendCheck, verdict_opens, array_32, bearer_hash, decode_note, decode_spend, check_spend,
}

abbrev pub domain_tag : Text
domain_tag = codes "LNURLcash:"

pub data CertifiedOver : Type 0 where
  output_key legacy_output_key legacy_hash : CertifiedOver

pub record NoteCheck : Type 0 where
  pub output_key : List ℕ
  pub spend : SpendVerdict
  pub certificate : CertifiedOver

-- `NoteCheck::is_verified`
unfoldable pub is_verified : NoteCheck → Bool
is_verified check = verdict_opens check.spend

unfoldable pub is_hex_id : Text → Bool
is_hex_id id = byte_len id == 64 && all is_ascii_hexdigit id

unfoldable pub legacy_note_signature_message_for_hash : Text → ℕ → Text
legacy_note_signature_message_for_hash id amount_msat =
    domain_tag ++ (decimal amount_msat ++ b':' ∷ lower (trim id))

module _ {Url : Type 0} (u : UrlApi Url) (bech : BechApi Checksum) where
  unfoldable pub note_signature_message_for_hash : Text → Text → ℕ → Option Text
  note_signature_message_for_hash id domain amount_msat =
      map_option
        (λ (host : Text).
          domain_tag ++ (host ++ b':' ∷ (decimal amount_msat ++ b':' ∷ lower (trim id))))
        (spend_domain_of u bech domain)

module _ (crypto : CryptoApi) (bech : BechApi Checksum) where
  unfoldable pub decode_any_cs1_bytes : Text → Option (List ℕ)
  decode_any_cs1_bytes value = elim (decode_cs1 bech value) [
    | some signature ↦ some signature
    | none ↦ and_then (split_last b'1' value) λ parts.
        let hrp = lower parts.0 in
        and_then (strip_prefix (codes "cs") hrp) λ _. decode bech bech32m hrp value
  ]

  unfoldable pub certificate_bytes : Text → ℕ → Bool → Option (List ℕ)
  certificate_bytes signature amount_msat lenient =
      let trimmed = trim signature in
      elim (decode_cs1_with_amount bech trimmed) [
        | some cs1 ↦ if cs1.amount_msat == amount_msat then some cs1.signature else none
        | none ↦
            if not lenient
            then none
            else option_filter (or_else (decode_any_cs1_bytes trimmed) (crypto.hex_decode trimmed))
                (λ bytes. length bytes == 65)
      ]

module _ (crypto : CryptoApi) (curve : CurveApi) where
  -- A layout: the compact signature, and the recovery id if that byte is there.
  unfoldable pub layout_recovers : List ℕ → Text → List ℕ → Option ℕ → Bool
  layout_recovers digest target compact recovery =
      is_some_and (and_then recovery (λ id. curve.recover_ecdsa compact id digest))
        (λ recovered. text_eq (crypto.hex_encode recovered) target)

  unfoldable pub recovers_to : List ℕ → List ℕ → Bool → Text → Bool
  recovers_to digest signature both_layouts mint_pubkey_hex =
      let target = lower (trim mint_pubkey_hex) in
      layout_recovers digest target (take 64 signature) (get_elem? signature 64)
      || (both_layouts
          && layout_recovers digest target (take 64 (drop 1 signature)) (get_elem? signature 0))

  unfoldable pub legacy_note_signature_digest_for_hash : Text → ℕ → List ℕ
  legacy_note_signature_digest_for_hash id amount_msat =
      lightning_signed_digest crypto curve (legacy_note_signature_message_for_hash id amount_msat)

  module _ (bech : BechApi Checksum) where
    unfoldable pub verify_legacy_note_signature_hash : Text → ℕ → Text → Text → Bool
    verify_legacy_note_signature_hash id amount_msat signature mint_pubkey_hex =
        let trimmed = trim id in
        is_hex_id trimmed
        && is_some_and (certificate_bytes crypto bech signature amount_msat true) (λ signature.
          recovers_to (legacy_note_signature_digest_for_hash trimmed amount_msat) signature true
            mint_pubkey_hex)

    module _ {Url : Type 0} (u : UrlApi Url) where
      unfoldable pub note_signature_message : Text → Text → ℕ → Option Text
      note_signature_message k1 domain amount_msat =
          and_then (note_id_of crypto curve bech k1)
            λ id. note_signature_message_for_hash u bech id domain amount_msat

      unfoldable pub note_signature_digest_for_hash : Text → Text → ℕ → Option (List ℕ)
      note_signature_digest_for_hash id domain amount_msat =
          map_option (lightning_signed_digest crypto curve)
            (note_signature_message_for_hash u bech id domain amount_msat)

      unfoldable pub note_signature_digest : Text → Text → ℕ → Option (List ℕ)
      note_signature_digest k1 domain amount_msat =
          and_then (note_id_of crypto curve bech k1)
            λ id. note_signature_digest_for_hash id domain amount_msat

      unfoldable pub verify_note_signature_hash : Text → Text → ℕ → Text → Text → Bool
      verify_note_signature_hash id domain amount_msat signature mint_pubkey_hex =
          let trimmed = trim id in
          is_hex_id trimmed
          && is_some_and (note_signature_digest_for_hash trimmed domain amount_msat) (λ digest.
            is_some_and (certificate_bytes crypto bech signature amount_msat false)
              (λ signature. recovers_to digest signature false mint_pubkey_hex))

      unfoldable pub certified_over :
          List ℕ → Option (List ℕ) → Text → ℕ → Text → Text → Option CertifiedOver
      certified_over key bearer domain amount_msat signature mint_pubkey =
          let q = crypto.hex_encode key in
          if verify_note_signature_hash q domain amount_msat signature mint_pubkey
          then some output_key
          else if verify_legacy_note_signature_hash q amount_msat signature mint_pubkey
          then some legacy_output_key
          else map_option (λ _. legacy_hash)
              (option_filter bearer (λ h.
                verify_legacy_note_signature_hash (crypto.hex_encode h) amount_msat signature
                  mint_pubkey))

      unfoldable pub check_note_certificate : Text → Text → ℕ → Text → Text → Option CertifiedOver
      check_note_certificate reference domain amount_msat signature mint_pubkey =
          and_then (decode_note crypto curve bech reference) λ key.
            let bearer =
              if is_preimage reference
              then and_then (crypto.hex_decode (trim reference)) array_32
              else none in
            certified_over key bearer domain amount_msat signature mint_pubkey

      unfoldable pub check_note : Text → Text → ℕ → Text → Text → Option NoteCheck
      check_note k1 domain amount_msat signature mint_pubkey =
          and_then (check_spend crypto curve bech u k1 domain) λ check.
            and_then (decode_spend crypto curve bech k1) λ spend.
              map_option
                (λ (certificate : CertifiedOver). record {
                  output_key = check.output_key;
                  spend = check.verdict;
                  certificate = certificate;
                })
                (certified_over check.output_key (bearer_hash crypto curve spend) domain amount_msat
                  signature mint_pubkey)

      unfoldable pub verify_note_signature : Text → Text → ℕ → Text → Text → Bool
      verify_note_signature k1 domain amount_msat signature mint_pubkey =
          is_some_and (check_note k1 domain amount_msat signature mint_pubkey) is_verified
