-- ===== src/Protocol/NoteInfo.antt =====
-- The informational GET of src/protocol.rs.
pub mod Sound
use lnurlcash_core.Common.{
  ℕ, Bool, true, false, not, ◌&&◌, ◌||◌, Option, none, some, ltb, if◌then◌else◌, is_some_and,
  map_option, [], or_else, option_filter, unwrap_or, ok, err, ◌>>=◌, ◌>>◌, guard, ok_or,
}
use lnurlcash_core.Common.Text.{Text, codes, text_eq, lower, trim, eq_ignore_case}
use lnurlcash_core.Errors.{Error, protocol, Result}
use lnurlcash_core.Deps.{Deps, SpendApi, SpendVerdict, fails}
use lnurlcash_core.Note.{note_k1}
use lnurlcash_core.Protocol.Types.{Policy, WithdrawRequestInfo, NoteInfoByHash}
use lnurlcash_core.Protocol.Fields.{
  as_str, as_u64, field_is, reject_note_error, is_compressed_pubkey,
}

unfoldable pub check_mint_pubkey : Option Text → Policy → Result (Unit {0})
check_mint_pubkey mint_pubkey policy =
    if not policy.require_mint_pubkey || is_some_and mint_pubkey is_compressed_pubkey
    then ok tt
    else err (
        protocol (elim mint_pubkey [
          | none ↦
              codes
                "this service publishes no mintPubkey, so its notes cannot be verified offline (LUD-25 requires one)"
          | some _ ↦
              codes
                "this service published a mintPubkey that is not a 33-byte compressed secp256k1 key"
        ]))

abbrev pub is_fails : Option SpendVerdict → Bool
is_fails (some (fails _)) = true
is_fails _ = false

abbrev pub same_id : Option Text → Option Text → Bool
same_id (some a) (some b) = text_eq a b
same_id _ _ = false

unfoldable pub same_note : SpendApi → Text → Text → Text → Bool
same_note spend echoed queried queried_url =
    eq_ignore_case (trim echoed) (trim queried)
    || (same_id (spend.note_id_of echoed) (spend.note_id_of queried)
        && not (
            is_fails (spend.check_spend echoed (unwrap_or (spend.spend_domain_of queried_url) []))))

abbrev pub not_withdraw_request : Error
not_withdraw_request = protocol (codes "not a withdrawRequest (unexpected response)")

module _ {Value Url : Type 0} (d : Deps Value Url) where
  abbrev pub as_text : Value → Text → Option Text
  as_text body key = as_str d.json body key

  unfoldable pub certificate : Value → Text → Text → Option Text
  certificate body current legacy =
      or_else (option_filter (as_text body current) (λ s. not (text_eq s [])))
        (option_filter (as_text body legacy) (λ s. not (text_eq s [])))

  unfoldable pub min_withdrawable : Value → Result ℕ
  min_withdrawable body = elim (d.json.get body (codes "minWithdrawable")) [
    | none ↦ ok 0
    | some v ↦
        if d.json.is_null v
        then ok 0
        else ok_or (as_u64 d.json body (codes "minWithdrawable")) not_withdraw_request
  ]

  unfoldable pub check_echo : Text → Text → Result (Unit {0})
  check_echo k1 queried_url = elim (note_k1 d.url queried_url) [
    | none ↦ ok tt
    | some queried ↦ guard (same_note d.spend k1 queried queried_url) (
        protocol (
          codes
            "the service echoed back a different k1 than was queried - the note may have been redeemed elsewhere, or the service isn't spec-compliant"))
  ]

  unfoldable pub parse_note_info : Value → Text → Policy → Result WithdrawRequestInfo
  parse_note_info body queried_url policy = do
    reject_note_error d.json body
    guard (field_is d.json body (codes "tag") (codes "withdrawRequest")) not_withdraw_request
    callback ← ok_or (as_text body (codes "callback")) not_withdraw_request
    k1 ← ok_or (as_text body (codes "k1")) not_withdraw_request
    highest ← ok_or (as_u64 d.json body (codes "maxWithdrawable")) not_withdraw_request
    lowest ← min_withdrawable body
    guard (not (ltb highest lowest)) not_withdraw_request
    check_echo k1 queried_url
    let mint_pubkey = as_text body (codes "mintPubkey")
    check_mint_pubkey mint_pubkey policy
    ok (record {
      callback = callback;
      k1 = lower k1;
      max_withdrawable = highest;
      min_withdrawable = lowest;
      default_description = as_text body (codes "defaultDescription");
      mint_pubkey = map_option (λ key. lower (trim key)) mint_pubkey;
      signature = certificate body (codes "c") (codes "sig");
    })

  unfoldable pub parse_note_info_by_hash : Value → Policy → Result NoteInfoByHash
  parse_note_info_by_hash body policy = do
    reject_note_error d.json body
    guard (field_is d.json body (codes "tag") (codes "withdrawRequest")) not_withdraw_request
    callback ← ok_or (as_text body (codes "callback")) not_withdraw_request
    highest ← ok_or (as_u64 d.json body (codes "maxWithdrawable")) not_withdraw_request
    lowest ← min_withdrawable body
    guard (not (ltb highest lowest)) not_withdraw_request
    let mint_pubkey = as_text body (codes "mintPubkey")
    check_mint_pubkey mint_pubkey policy
    ok (record {
      callback = callback;
      max_withdrawable = highest;
      min_withdrawable = lowest;
      default_description = as_text body (codes "defaultDescription");
      mint_pubkey = map_option (λ key. lower (trim key)) mint_pubkey;
      signature = certificate body (codes "c") (codes "sig");
    })
