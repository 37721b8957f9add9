-- ===== src/Signature/Address.antt =====
-- The proof of an address registration in src/signature.rs. `str::to_lowercase`, which goes by the
-- tables of Unicode, is a parameter; a share that does not print is taken for one that does not parse.
use lnurlcash_core.Common.{
  ℕ, Bool, not, ◌&&◌, ◌||◌, List, [], ◌∷◌, ◌++◌, Option, none, some, if◌then◌else◌, and_then,
  is_some_and, ok, err, ok_or, ◌>>=◌, ◌>>◌, guard,
}
use lnurlcash_core.Common.Text.{Text, codes, text_eq, trim}
use lnurlcash_core.Common.Utf8.{as_bytes}
use lnurlcash_core.Errors.{Result, protocol}
use lnurlcash_core.Deps.{CryptoApi, CurveApi, UrlApi, BechApi}
use lnurlcash_core.LongBech32.{Checksum}
use lnurlcash_core.Recoverable.Keys.{cx1_x_only, encode_cx1, decode_cx1}
use lnurlcash_core.Recoverable.Naming.{ok_of}
use lnurlcash_core.Spend.Sighash.{spend_domain_of}

module _ (to_lowercase : Text → Text) (crypto : CryptoApi) (curve : CurveApi)
    (bech : BechApi Checksum) {Url : Type 0} (u : UrlApi Url) where
  -- The canonical spelling of a share that is given.
  unfoldable pub canonical_cx1 : Option Text → Result (Option Text)
  canonical_cx1 none = ok none
  canonical_cx1 (some value) = do
    cx1 ←
        ok_or (and_then (decode_cx1 curve bech value) (encode_cx1 bech))
          (protocol (codes "that is not a cx1"))
    ok (some cx1)

  abbrev pub binds_cx1 : Text → Bool
  binds_cx1 action = text_eq action (codes "register") || text_eq action (codes "update")

  -- The `match` on the action and the share.
  unfoldable pub proof_text : Text → Text → Text → Option Text → Result Text
  proof_text action domain username (some cx1) =
      if binds_cx1 action
      then ok (codes "LNURLcash:" ++ (action ++ b':' ∷ (domain ++ b':' ∷ (username ++ b':' ∷ cx1))))
      else if text_eq action (codes "unregister")
      then err (protocol (codes "an unregister proof binds no cx1"))
      else err (protocol (codes "an address proof action is register, update or unregister"))
  proof_text action domain username none =
      if text_eq action (codes "unregister")
      then ok (codes "LNURLcash:" ++ (codes "unregister" ++ b':' ∷ (domain ++ b':' ∷ username)))
      else if binds_cx1 action
      then err (protocol (codes "a " ++ (action ++ codes " proof binds the cx1 it puts on file")))
      else err (protocol (codes "an address proof action is register, update or unregister"))

  unfoldable pub address_proof_message : Text → Text → Text → Option Text → Result Text
  address_proof_message action domain username cx1 = do
    host ←
        ok_or (spend_domain_of u bech domain)
          (protocol (codes "an address proof names the SERVICE's domain"))
    let name = to_lowercase (trim username)
    guard (not (text_eq name [])) (protocol (codes "an address proof names a username"))
    canonical ← canonical_cx1 cx1
    proof_text action host name canonical

  unfoldable pub address_proof_digest : Text → Text → Text → Option Text → Result (List ℕ)
  address_proof_digest action domain username cx1 = do
    message ← address_proof_message action domain username cx1
    ok (crypto.sha256 (as_bytes message))

  unfoldable pub sign_address_proof : List ℕ → Text → Text → Text → Option Text → Result (List ℕ)
  sign_address_proof share_secret_key action domain username cx1 = do
    _ ←
        ok_or (curve.x_only_of share_secret_key)
          (protocol (codes "a share secret key is a 32-byte scalar in [1, n)"))
    digest ← address_proof_digest action domain username cx1
    ok_or (curve.sign_raw share_secret_key digest)
        (protocol (codes "could not sign the address proof message"))

  unfoldable pub verify_address_proof : Text → List ℕ → Text → Text → Text → Option Text → Bool
  verify_address_proof signer signature action domain username cx1 =
      is_some_and (decode_cx1 curve bech signer) λ share.
        is_some_and (ok_of (address_proof_digest action domain username cx1)) λ digest.
          curve.is_x_only (cx1_x_only share)
          && curve.is_schnorr signature
          && curve.verify_raw (cx1_x_only share) digest signature
