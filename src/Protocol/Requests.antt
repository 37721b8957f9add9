-- ===== src/Protocol/Requests.antt =====
-- The functions of src/protocol.rs that build a request: a URL, the secrets behind it and the
-- outputs that it names.
pub mod Sent
use lnurlcash_core.Common.{
  ℕ, Bool, false, not, ◌||◌, List, [], ◌∷◌, ◌++◌, Option, some, ltb, if◌then◌else◌, map, keep, any,
  and_then, ok, ◌>>=◌, ◌>>◌, guard, ok_or,
}
use lnurlcash_core.Common.Text.{Text, codes, text_eq, lower, trim}
use lnurlcash_core.Common.Decimal.{decimal}
use lnurlcash_core.Errors.{Error, request_refused, Result}
use lnurlcash_core.Deps.{Deps}
use lnurlcash_core.Secrets.{hash_k1, is_preimage}
use lnurlcash_core.Urls.{is_allowed_service_url}
use lnurlcash_core.Note.{Pair, append_pairs, key_is, rebuild}
use lnurlcash_core.Protocol.Types.{Request, plain, naming, PayRequestInfo}

abbrev pub refuse : Text → Error
refuse message = request_refused message

abbrev pub k1_params : List Text → List Pair
k1_params k1s = map (λ k1. (codes "k1", k1)) k1s

abbrev pub same_domain : Option Text → Option Text → Bool
same_domain (some payee) (some note) = text_eq payee note
same_domain _ _ = false

module _ {Value Url : Type 0} (d : Deps Value Url) where
  unfoldable pub note_info_request : Text → Result Request
  unfolding rebuild
  note_info_request url = do
    parsed ← ok_or (d.url.parse url) (refuse (codes "that note URL does not parse"))
    ok (
        plain (
          rebuild d.url parsed
            (keep (λ p. not (key_is p (codes "c" ∷ codes "sig" ∷ []))) (d.url.query_pairs parsed))))

  unfoldable pub mint_address_request : Text → Result Request
  mint_address_request url = ok (plain url)

  unfoldable pub pay_request_request : Text → Result Request
  pay_request_request url = ok (plain url)

  unfoldable pub verify_request : Text → Result Request
  verify_request verify_url = ok (plain verify_url)

  unfoldable pub callback_url : Text → List Pair → Result Text
  unfolding is_allowed_service_url append_pairs
  callback_url callback params = do
    guard (is_allowed_service_url d.url callback)
        (refuse (codes "the service provided an invalid callback URL"))
    guard (any (λ p. text_eq p.0 (codes "k1")) params)
        (refuse (codes "at least one k1 is required - there is no note to operate on"))
    url ←
        ok_or (d.url.parse callback) (refuse (codes "the service provided an invalid callback URL"))
    ok (d.url.to_string (append_pairs d.url params url))

  unfoldable pub melt_request : Text → Text → Text → Result Request
  unfolding callback_url
  melt_request callback k1 pr = do
    url ← callback_url callback ((codes "k1", k1) ∷ (codes "pr", trim pr) ∷ [])
    ok (plain url)

  unfoldable pub internal_transfer_request : PayRequestInfo → Text → Text → ℕ → Result Request
  unfolding callback_url
  internal_transfer_request pay_request note_domain k1 amount_msat = do
    guard
        (same_domain (and_then pay_request.withdraw_link d.spend.spend_domain_of)
          (d.spend.spend_domain_of note_domain))
        (refuse (
          codes
            "that Lightning Address is not at the note's mint, so the note cannot be sent to it - pay it over Lightning instead"))
    guard
        (not (ltb amount_msat pay_request.min_sendable || ltb pay_request.max_sendable amount_msat))
        (refuse (
          decimal amount_msat
          ++ codes " msat is outside what that address accepts - split the note first"))
    guard (d.spend.is_spend k1) (refuse (codes "that k1 is no spend"))
    url ←
        callback_url pay_request.callback
          ((codes "amount", decimal amount_msat) ∷ (codes "k1", trim k1) ∷ [])
    ok (plain url)

  unfoldable pub output_param : Text → Text → Result Pair
  output_param name value = do
    guard (d.spend.names_note (trim value)) (
        refuse (
          name
          ++ codes
              " must be a cp1 whose key is a curve point, or a bearer note's 64-hex hash - nothing was sent"))
    ok (name, trim value)

  unfoldable pub rotate_request_with_hash : Text → Text → Text → Result Request
  unfolding callback_url output_param
  rotate_request_with_hash callback k1 h = do
    output ← output_param (codes "p1") h
    url ← callback_url callback ((codes "k1", k1) ∷ output ∷ [])
    ok (naming url (h ∷ []))

  unfoldable pub split_request_with_hash : Text → List Text → ℕ → Text → Text → Result Request
  unfolding callback_url output_param
  split_request_with_hash callback k1s amount_msat h h2 = do
    p1 ← output_param (codes "p1") h
    p2 ← output_param (codes "p2") h2
    url ←
        callback_url callback
          (k1_params k1s ++ ((codes "amount", decimal amount_msat) ∷ p1 ∷ p2 ∷ []))
    ok (naming url (h ∷ h2 ∷ []))

  unfoldable pub merge_request_with_hash : Text → List Text → Text → Result Request
  unfolding callback_url output_param
  merge_request_with_hash callback k1s h = do
    p1 ← output_param (codes "p1") h
    url ← callback_url callback (k1_params k1s ++ p1 ∷ [])
    ok (naming url (h ∷ []))

  abbrev pub holding : Request → List Text → Request
  holding request secrets = record request { new_secrets = secrets }

  unfoldable pub rotate_request : Text → Text → Text → Result Request
  unfolding rotate_request_with_hash hash_k1
  rotate_request callback k1 new_secret = do
    h ← hash_k1 d.crypto new_secret
    request ← rotate_request_with_hash callback k1 h
    ok (holding request (new_secret ∷ []))

  unfoldable pub split_request : Text → List Text → ℕ → Text → Text → Result Request
  unfolding split_request_with_hash hash_k1
  split_request callback k1s amount_msat new_secret change_secret = do
    h ← hash_k1 d.crypto new_secret
    h2 ← hash_k1 d.crypto change_secret
    request ← split_request_with_hash callback k1s amount_msat h h2
    ok (holding request (new_secret ∷ change_secret ∷ []))

  unfoldable pub merge_request : Text → List Text → Text → Result Request
  unfolding merge_request_with_hash hash_k1
  merge_request callback k1s new_secret = do
    h ← hash_k1 d.crypto new_secret
    request ← merge_request_with_hash callback k1s h
    ok (holding request (new_secret ∷ []))

  unfoldable pub invoice_request : Text → ℕ → Result Request
  invoice_request pay_callback amount_msat = do
    url ← ok_or (d.url.parse pay_callback) (refuse (codes "that pay callback does not parse"))
    ok (plain (d.url.to_string (d.url.append_pair url (codes "amount") (decimal amount_msat))))

  unfoldable pub mint_invoice_request_with_hash : Text → ℕ → Text → Result Request
  unfolding is_preimage append_pairs
  mint_invoice_request_with_hash pay_callback amount_msat value = do
    let h = lower (trim value)
    let key = d.spend.is_cp1 h
    guard (key || is_preimage h) (
        refuse (
          codes
            "an output commitment must be 32 bytes of hex or a cp1 whose key is a curve point - no invoice was requested"))
    url ← ok_or (d.url.parse pay_callback) (refuse (codes "that pay callback does not parse"))
    ok (
        plain (
          d.url.to_string (
            append_pairs d.url
              ((codes "amount", decimal amount_msat)
                ∷ (codes "comment", h)
                ∷ (if key then [] else (codes "h", h) ∷ []))
              url)))

  unfoldable pub mint_invoice_request : Text → ℕ → Text → Result Request
  unfolding mint_invoice_request_with_hash is_preimage hash_k1
  mint_invoice_request pay_callback amount_msat mint_secret = do
    guard (is_preimage mint_secret)
        (refuse (codes "a note secret must be 32 bytes of hex - no invoice was requested"))
    h ← hash_k1 d.crypto mint_secret
    request ← mint_invoice_request_with_hash pay_callback amount_msat h
    ok (holding request (mint_secret ∷ []))
