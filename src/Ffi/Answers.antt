-- ===== src/Ffi/Answers.antt =====
-- The response readers of src/ffi.rs. The records that an answer is turned into have the fields of the
-- crate's own, and are those.
use lnurlcash_core.Common.{ℕ, Bool, List, Option, ok, err, ◌>>=◌, map_option}
use lnurlcash_core.Common.Text.{Text}
use lnurlcash_core.Errors.{with_secrets}
use lnurlcash_core.Deps.{Deps}
use lnurlcash_core.Fees.{MintFee}
use lnurlcash_core.Protocol.Types.{
  WithdrawRequestInfo, NoteInfoByHash, MintAddressInfo, PayRequestInfo, InvoiceResult, VerifyResult,
}
use lnurlcash_core.Protocol.Types as Types
use lnurlcash_core.Protocol.NoteInfo as NoteInfo
use lnurlcash_core.Protocol.Minting as Minting
use lnurlcash_core.Protocol.Mutation as Mutation
use lnurlcash_core.Errors as Errors
use lnurlcash_core.Ffi.{
  FfiPolicy, policy_of, LnurlcashError, ambiguous, FfiResult, convert, parse_body, FfiMutationKind,
  kind_of, FfiMutation, ffi_mutation,
}

pub record FfiMintFee : Type 0 where
  pub base_fee_msat : ℕ
  pub fee_ppm : ℕ
  pub address_fee_msat : Option ℕ

abbrev pub ffi_mint_fee : MintFee → FfiMintFee
ffi_mint_fee fee = record {
  base_fee_msat = fee.base_fee_msat;
  fee_ppm = fee.fee_ppm;
  address_fee_msat = fee.address_fee_msat;
}

pub record FfiPayRequest : Type 0 where
  pub callback : Text
  pub min_sendable : ℕ
  pub max_sendable : ℕ
  pub metadata : Text
  pub withdraw_link : Option Text
  pub mint_pubkey : Option Text
  pub mint_fee : Option FfiMintFee
  pub comment_allowed : Option ℕ
  pub mint_to_hash : Bool
  pub names_mint_output : Bool

abbrev pub ffi_pay_request : PayRequestInfo → FfiPayRequest
unfolding Types.names_mint_output
ffi_pay_request info = record {
  callback = info.callback;
  min_sendable = info.min_sendable;
  max_sendable = info.max_sendable;
  metadata = info.metadata;
  withdraw_link = info.withdraw_link;
  mint_pubkey = info.mint_pubkey;
  mint_fee = map_option ffi_mint_fee info.mint_fee;
  comment_allowed = info.comment_allowed;
  mint_to_hash = info.mint_to_hash;
  names_mint_output = Types.names_mint_output info;
}

-- The error of `parse_mutation` for a body that is no JSON, with the secrets of the request.
abbrev pub attach : List Text → LnurlcashError → LnurlcashError
attach new_secrets (ambiguous detail _) = ambiguous detail new_secrets
attach new_secrets other = other

abbrev pub attach_err {ℓ} : {A : Type ℓ} → List Text → FfiResult A → FfiResult A
attach_err new_secrets (ok value) = ok value
attach_err new_secrets (err e) = err (attach new_secrets e)

abbrev pub with_secrets_err {ℓ} : {A : Type ℓ} → List Text → Errors.Result A → Errors.Result A
with_secrets_err new_secrets (ok value) = ok value
with_secrets_err new_secrets (err e) = err (with_secrets e new_secrets)

module _ {Value Url : Type 0} (d : Deps Value Url) where
  unfoldable pub parse_note_info : Text → Text → FfiPolicy → FfiResult WithdrawRequestInfo
  unfolding parse_body
  parse_note_info body queried_url policy = do
    value ← parse_body d.json body
    convert (λ info. info) (NoteInfo.parse_note_info d value queried_url (policy_of policy))

  unfoldable pub parse_note_info_by_hash : Text → FfiPolicy → FfiResult NoteInfoByHash
  unfolding parse_body
  parse_note_info_by_hash body policy = do
    value ← parse_body d.json body
    convert (λ info. info) (NoteInfo.parse_note_info_by_hash d value (policy_of policy))

  unfoldable pub parse_mint_address : Text → FfiResult MintAddressInfo
  unfolding parse_body
  parse_mint_address body = do
    value ← parse_body d.json body
    convert (λ info. info) (Minting.parse_mint_address d value)

  unfoldable pub parse_pay_request : Text → FfiResult FfiPayRequest
  unfolding parse_body
  parse_pay_request body = do
    value ← parse_body d.json body
    convert ffi_pay_request (Minting.parse_pay_request d value)

  unfoldable pub parse_invoice : Text → ℕ → FfiResult InvoiceResult
  unfolding parse_body
  parse_invoice body requested_msat = do
    value ← parse_body d.json body
    convert (λ invoice. invoice) (Minting.parse_invoice d value requested_msat)

  unfoldable pub parse_verify : Text → FfiResult VerifyResult
  unfolding parse_body
  parse_verify body = do
    value ← parse_body d.json body
    convert (λ result. result) (Minting.parse_verify d value)

  unfoldable pub parse_internal_transfer : Text → FfiResult (Unit {0})
  unfolding parse_body
  parse_internal_transfer body = do
    value ← parse_body d.json body
    convert (λ done. done) (Mutation.parse_internal_transfer d value)

  unfoldable pub parse_mutation :
      Text → List Text → FfiMutationKind → List Text → FfiPolicy → FfiResult FfiMutation
  unfolding parse_body
  parse_mutation body new_secrets kind outputs policy = do
    value ← attach_err new_secrets (parse_body d.json body)
    convert ffi_mutation (
        with_secrets_err new_secrets
          (Mutation.parse_mutation d value (kind_of kind) outputs (policy_of policy)))
