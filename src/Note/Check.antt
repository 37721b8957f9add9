-- ===== src/Note/Check.antt =====
-- `check_note_url` of src/note.rs.
use lnurlcash_core.Common.{Option, and_then}
use lnurlcash_core.Common.Text.{Text}
use lnurlcash_core.Deps.{CryptoApi, CurveApi, UrlApi, BechApi}
use lnurlcash_core.LongBech32.{Checksum}
use lnurlcash_core.Urls.Resolve.{resolve_lnurl_input}
use lnurlcash_core.Note.{note_k1, note_signature, note_declared_amount}
use lnurlcash_core.Spend.Sighash.{spend_domain_of}
use lnurlcash_core.Spend.Api.{spend_api}
use lnurlcash_core.Signature.{NoteCheck, check_note}

module _ {Url : Type 0} (crypto : CryptoApi) (curve : CurveApi) (bech : BechApi Checksum)
    (u : UrlApi Url) where
  unfoldable pub check_note_url : Text → Text → Option NoteCheck
  check_note_url url mint_pubkey = and_then (resolve_lnurl_input bech u url) λ url.
      and_then (note_k1 u url) λ k1. and_then (spend_domain_of u bech url) λ domain.
        and_then (note_declared_amount u (spend_api crypto curve bech u) url) λ amount_msat.
          and_then (note_signature u url)
            λ signature. check_note crypto curve bech u k1 domain amount_msat signature mint_pubkey
