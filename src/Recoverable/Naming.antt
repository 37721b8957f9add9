-- ===== src/Recoverable/Naming.antt =====
-- `note_id_of` and `note_lookup_of` of src/recoverable.rs: how a note is filed and looked up.
use lnurlcash_core.Common.{Option, none, some, if◌then◌else◌, and_then, map_option, Result, ok, err}
use lnurlcash_core.Common.Text.{Text, trim, lower}
use lnurlcash_core.Deps.{CryptoApi, CurveApi, BechApi}
use lnurlcash_core.LongBech32.{Checksum}
use lnurlcash_core.Secrets.{is_preimage, hash_k1}
use lnurlcash_core.Recoverable.Strings.{encode_cp1}
use lnurlcash_core.Spend.Check.{Spend, spend_key, decode_spend}

-- `Result::ok`
abbrev pub ok_of {ℓ κ} : {E : Type κ} {A : Type ℓ} → Result E A → Option A
ok_of (ok value) = some value
ok_of (err _) = none

module _ (crypto : CryptoApi) (curve : CurveApi) (bech : BechApi Checksum) where
  unfoldable pub note_id_of : Text → Option Text
  note_id_of k1 =
      map_option (λ (spend : Spend). crypto.hex_encode (spend_key spend))
        (decode_spend crypto curve bech k1)

  unfoldable pub note_lookup_of : Text → Option Text
  note_lookup_of k1 =
      let value = trim k1 in
      if is_preimage value
      then ok_of (hash_k1 crypto (lower value))
      else and_then (decode_spend crypto curve bech value)
          (λ spend. encode_cp1 bech (spend_key spend))
