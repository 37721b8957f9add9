-- ===== src/Recoverable/Ownership.antt =====
-- The key-path spends of src/recoverable.rs: how a `ck1` is signed and checked, in its current form and
-- in the superseded ones. `lightning_signed_digest` is that of src/signature.rs.
use lnurlcash_core.Common.{
  ℕ, Bool, true, false, not, ◌||◌, List, [], ◌∷◌, ◌++◌, Option, none, some, ◌==◌, if◌then◌else◌,
  length, get_elem?, is_some_and, and_then, map_option, ok, ok_or, ◌>>=◌,
}
use lnurlcash_core.Common.Text.{Text, codes}
use lnurlcash_core.Common.Utf8.{as_bytes}
use lnurlcash_core.Errors.{Result, protocol}
use lnurlcash_core.Deps.{CryptoApi, CurveApi, UrlApi, BechApi}
use lnurlcash_core.LongBech32.{Checksum}
use lnurlcash_core.Recoverable.Cw1.{take_bytes}
use lnurlcash_core.Spend.Sighash.{spend_domain_of, key_path_sighash}

pub record NoteOwner : Type 0 where
  pub pubkey_x_only : List ℕ
  pub legacy : Bool

-- The x coordinate of a compressed point.
abbrev pub x_of : List ℕ → List ℕ
x_of [] = []
x_of (sign ∷ x) = x

module _ (crypto : CryptoApi) (curve : CurveApi) where
  unfoldable pub lightning_signed_digest : Text → List ℕ
  lightning_signed_digest message =
      crypto.sha256
        (crypto.sha256 (as_bytes (codes "Lightning Signed Message:") ++ as_bytes message))

  abbrev pub legacy_ownership_message : Text
  legacy_ownership_message = codes "LNURLcash"

  unfoldable pub legacy_ownership_digest : List ℕ
  legacy_ownership_digest = crypto.sha256 (as_bytes legacy_ownership_message)

  unfoldable pub legacy_ck1_key : List ℕ → Option (List ℕ)
  legacy_ck1_key signature =
      if not (length signature == 65)
      then none
      else and_then (take_bytes 64 signature) λ parts. and_then (get_elem? parts.1 0) λ recovery.
        map_option x_of
          (curve.recover_ecdsa parts.0 recovery (lightning_signed_digest legacy_ownership_message))

  module _ {Url : Type 0} (u : UrlApi Url) (bech : BechApi Checksum) where
    unfoldable pub sign_note_ownership : List ℕ → Text → Result (List ℕ)
    sign_note_ownership secret_key domain = do
      output_key ←
          ok_or (curve.x_only_of secret_key)
            (protocol (codes "a note secret key is a 32-byte scalar in [1, n)"))
      domain ←
          ok_or (spend_domain_of u bech domain)
            (protocol (codes "a ck1 is signed for a mint's domain, and that names none"))
      signature ←
          ok_or (curve.sign_raw secret_key (key_path_sighash crypto output_key domain))
            (protocol (codes "could not sign the key-path spend"))
      ok (output_key ++ signature)

    unfoldable pub recover_note_ownership_pubkey : List ℕ → Text → Option NoteOwner
    recover_note_ownership_pubkey payload domain =
        if length payload == 65
        then map_option (λ (key : List ℕ). record { pubkey_x_only = key; legacy = true })
            (legacy_ck1_key payload)
        else if not (length payload == 96)
        then none
        else and_then (take_bytes 32 payload) λ parts.
          let (key, signature) = parts in
          if not (curve.is_x_only key)
          then none
          else if not (curve.is_schnorr signature)
          then none
          else if is_some_and (spend_domain_of u bech domain)
              (λ domain. curve.verify_raw key (key_path_sighash crypto key domain) signature)
          then some (record { pubkey_x_only = key; legacy = false })
          else if curve.verify_raw key legacy_ownership_digest signature
              || curve.verify_raw key (as_bytes legacy_ownership_message) signature
          then some (record { pubkey_x_only = key; legacy = true })
          else none
