-- ===== src/Protocol/Minting.antt =====
-- The other responses of src/protocol.rs: the mint address, the payRequest, the invoice and its
-- verification.
pub mod Sound
use lnurlcash_core.Common.{
  ℕ, ◌++◌, Bool, true, false, not, ◌&&◌, Option, none, some, ltb, ◌==◌, if◌then◌else◌, and_then,
  is_some, is_some_and, unwrap_or, [], ok, err, ◌>>=◌, ◌>>◌, guard, ok_or,
}
use lnurlcash_core.Common.Text.{Text, codes}
use lnurlcash_core.Common.Decimal.{decimal}
use lnurlcash_core.Errors.{Error, protocol, Result}
use lnurlcash_core.Bolt11.{decode_bolt11_amount_msat}
use lnurlcash_core.Deps.{Deps}
use lnurlcash_core.Protocol.Types.{
  MintAddressInfo, PayRequestInfo, mint_comment_length, InvoiceResult, VerifyResult,
}
use lnurlcash_core.Protocol.Fields.{
  as_str, as_u64, as_str_list, as_iso_date, field_is, reject_error,
}
use lnurlcash_core.Fees.Token.{parse_mint_fee}

abbrev pub not_mint_address : Error
not_mint_address = protocol (codes "not a mint address response (unexpected shape)")

abbrev pub not_pay_request : Error
not_pay_request = protocol (codes "not a payRequest (unexpected response)")

abbrev pub unexpected_verify : Error
unexpected_verify = protocol (codes "the service returned an unexpected verify response")

module _ {Value Url : Type 0} (d : Deps Value Url) where
  abbrev bool_field : Value → Text → Option Bool
  bool_field body key = and_then (d.json.get body key) d.json.value_bool

  unfoldable pub parse_mint_address : Value → Result MintAddressInfo
  parse_mint_address body = do
    reject_error d.json body
    guard (field_is d.json body (codes "tag") (codes "withdrawRequest")) not_mint_address
    callback ← ok_or (as_str d.json body (codes "callback")) not_mint_address
    pay_link ← ok_or (as_str d.json body (codes "payLink")) not_mint_address
    highest ← ok_or (as_u64 d.json body (codes "maxWithdrawable")) not_mint_address
    ok (record {
      callback = callback;
      pay_link = pay_link;
      max_withdrawable = highest;
      min_withdrawable = unwrap_or (as_u64 d.json body (codes "minWithdrawable")) 0;
      node_pubkey = as_str d.json body (codes "mintPubkey");
      node_alias = as_str d.json body (codes "nodeAlias");
      node_uri = as_str d.json body (codes "nodeUri");
      node_color = as_str d.json body (codes "nodeColor");
      node_capacity_msat = as_u64 d.json body (codes "nodeCapacity");
      node_num_channels = as_u64 d.json body (codes "nodeNumChannels");
      node_num_peers = as_u64 d.json body (codes "nodeNumPeers");
      node_uris = as_str_list d.json body (codes "nodeUris");
      sunset_date = as_iso_date d.json body (codes "sunsetDate");
      outstanding_notes_msat = as_u64 d.json body (codes "outstandingNotesMsat");
    })

  -- A `withdrawLink` that is there and no string is an error.
  unfoldable pub withdraw_link_of : Value → Result (Option Text)
  withdraw_link_of body = elim (d.json.get body (codes "withdrawLink")) [
    | none ↦ ok (as_str d.json body (codes "withdrawLink"))
    | some value ↦
        if not (d.json.is_string value)
        then err (protocol (codes "the mint's payRequest has an invalid withdrawLink"))
        else ok (as_str d.json body (codes "withdrawLink"))
  ]

  abbrev pub has_room : Option ℕ → Bool
  has_room allowed = is_some_and allowed (λ n. not (ltb n mint_comment_length))

  unfoldable pub parse_pay_request : Value → Result PayRequestInfo
  parse_pay_request body = do
    reject_error d.json body
    guard (field_is d.json body (codes "tag") (codes "payRequest")) not_pay_request
    let metadata = unwrap_or (as_str d.json body (codes "metadata")) []
    withdraw_link ← withdraw_link_of body
    let comment_allowed = as_u64 d.json body (codes "commentAllowed")
    guard (not (is_some withdraw_link && not (has_room comment_allowed))) (
        protocol
          (codes "this mint offers no room for the required output commitment - it cannot mint"))
    callback ← ok_or (as_str d.json body (codes "callback")) not_pay_request
    ok (record {
      callback = callback;
      min_sendable = unwrap_or (as_u64 d.json body (codes "minSendable")) 0;
      max_sendable = unwrap_or (as_u64 d.json body (codes "maxSendable")) 0;
      metadata = metadata;
      withdraw_link = withdraw_link;
      mint_pubkey = as_str d.json body (codes "mintPubkey");
      mint_fee = parse_mint_fee d.json metadata;
      comment_allowed = comment_allowed;
      mint_to_hash = unwrap_or (bool_field body (codes "mintToHash")) false;
    })

  unfoldable pub check_invoiced : Text → ℕ → Result (Unit {0})
  check_invoiced pr requested_msat = elim (decode_bolt11_amount_msat pr) [
    | none ↦ ok tt
    | some invoiced ↦ guard (invoiced == requested_msat) (
        protocol (
          codes "the service returned an invoice for "
          ++ decimal invoiced
          ++ codes " msat, not the "
          ++ decimal requested_msat
          ++ codes " requested"))
  ]

  unfoldable pub parse_invoice : Value → ℕ → Result InvoiceResult
  parse_invoice body requested_msat = do
    reject_error d.json body
    pr ←
        ok_or (as_str d.json body (codes "pr"))
          (protocol (codes "the service did not return an invoice"))
    check_invoiced pr requested_msat
    ok (record {
      pr = pr;
      verify = as_str d.json body (codes "verify");
      disposable = unwrap_or (bool_field body (codes "disposable")) true;
    })

  unfoldable pub parse_verify : Value → Result VerifyResult
  parse_verify body = do
    reject_error d.json body
    settled ← ok_or (bool_field body (codes "settled")) unexpected_verify
    pr ← ok_or (as_str d.json body (codes "pr")) unexpected_verify
    ok (record { settled = settled; preimage = as_str d.json body (codes "preimage"); pr = pr })
