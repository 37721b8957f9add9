-- ===== src/Ffi/Requests.antt =====
-- The request builders of src/ffi.rs.
use lnurlcash_core.Common.{ℕ, List, ◌>>=◌}
use lnurlcash_core.Common.Text.{Text}
use lnurlcash_core.Deps.{Deps}
use lnurlcash_core.Protocol.Requests as Requests
use lnurlcash_core.Protocol.Minting.{parse_pay_request}
use lnurlcash_core.Ffi.{FfiRequest, ffi_request, FfiResult, convert, parse_body}

module _ {Value Url : Type 0} (d : Deps Value Url) where
  unfoldable note_info_request : Text → FfiResult FfiRequest
  note_info_request url = convert ffi_request (Requests.note_info_request d url)

  unfoldable mint_address_request : Text → FfiResult FfiRequest
  mint_address_request url = convert ffi_request (Requests.mint_address_request d url)

  unfoldable pay_request_request : Text → FfiResult FfiRequest
  pay_request_request url = convert ffi_request (Requests.pay_request_request d url)

  unfoldable verify_request : Text → FfiResult FfiRequest
  verify_request verify_url = convert ffi_request (Requests.verify_request d verify_url)

  unfoldable invoice_request : Text → ℕ → FfiResult FfiRequest
  invoice_request pay_callback amount_msat =
      convert ffi_request (Requests.invoice_request d pay_callback amount_msat)

  unfoldable mint_invoice_request_with_hash : Text → ℕ → Text → FfiResult FfiRequest
  mint_invoice_request_with_hash pay_callback amount_msat h =
      convert ffi_request (Requests.mint_invoice_request_with_hash d pay_callback amount_msat h)

  unfoldable mint_invoice_request : Text → ℕ → Text → FfiResult FfiRequest
  mint_invoice_request pay_callback amount_msat mint_secret =
      convert ffi_request (Requests.mint_invoice_request d pay_callback amount_msat mint_secret)

  unfoldable melt_request : Text → Text → Text → FfiResult FfiRequest
  melt_request callback k1 pr = convert ffi_request (Requests.melt_request d callback k1 pr)

  unfoldable internal_transfer_request : Text → Text → Text → ℕ → FfiResult FfiRequest
  unfolding parse_body
  internal_transfer_request pay_request_body note_domain k1 amount_msat = do
    value ← parse_body d.json pay_request_body
    info ← convert (λ info. info) (parse_pay_request d value)
    convert ffi_request (Requests.internal_transfer_request d info note_domain k1 amount_msat)

  unfoldable rotate_request : Text → Text → Text → FfiResult FfiRequest
  rotate_request callback k1 new_secret =
      convert ffi_request (Requests.rotate_request d callback k1 new_secret)

  unfoldable split_request : Text → List Text → ℕ → Text → Text → FfiResult FfiRequest
  split_request callback k1s amount_msat new_secret change_secret =
      convert ffi_request
        (Requests.split_request d callback k1s amount_msat new_secret change_secret)

  unfoldable merge_request : Text → List Text → Text → FfiResult FfiRequest
  merge_request callback k1s new_secret =
      convert ffi_request (Requests.merge_request d callback k1s new_secret)

  unfoldable rotate_request_with_hash : Text → Text → Text → FfiResult FfiRequest
  rotate_request_with_hash callback k1 h =
      convert ffi_request (Requests.rotate_request_with_hash d callback k1 h)

  unfoldable split_request_with_hash : Text → List Text → ℕ → Text → Text → FfiResult FfiRequest
  split_request_with_hash callback k1s amount_msat h h2 =
      convert ffi_request (Requests.split_request_with_hash d callback k1s amount_msat h h2)

  unfoldable merge_request_with_hash : Text → List Text → Text → FfiResult FfiRequest
  merge_request_with_hash callback k1s h =
      convert ffi_request (Requests.merge_request_with_hash d callback k1s h)
