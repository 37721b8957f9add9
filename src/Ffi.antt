-- ===== src/Ffi.antt =====
-- src/ffi.rs: the records and the taxonomy of errors that cross to another language.
pub mod Requests
pub mod Answers
pub mod Client
pub mod Bytes
pub mod Keys
pub mod RoundTrip
use lnurlcash_core.Common.{ℕ, Bool, true, false, List, [], Option, none, some, ok, err, ok_or}
use lnurlcash_core.Common as Common
use lnurlcash_core.Common.Text.{Text, codes}
use lnurlcash_core.Errors as Errors
use lnurlcash_core.Deps.{JsonApi}
use lnurlcash_core.Protocol.Types as Types

pub record FfiRequest : Type 0 where
  pub url : Text
  pub new_secrets : List Text
  pub outputs : List Text

abbrev pub ffi_request : Types.Request → FfiRequest
ffi_request request = record {
  url = request.url;
  new_secrets = request.new_secrets;
  outputs = request.outputs;
}

pub record FfiPolicy : Type 0 where
  pub require_signatures : Bool
  pub require_mint_pubkey : Bool

abbrev pub ffi_policy : Types.Policy → FfiPolicy
ffi_policy policy = record {
  require_signatures = policy.require_signatures;
  require_mint_pubkey = policy.require_mint_pubkey;
}

abbrev pub default_ffi_policy : FfiPolicy
default_ffi_policy = ffi_policy Types.default_policy

abbrev pub policy_of : FfiPolicy → Types.Policy
policy_of policy = record {
  require_signatures = policy.require_signatures;
  require_mint_pubkey = policy.require_mint_pubkey;
}

pub data LnurlcashError : Type 0 where
  request_refused : (detail : Text) → LnurlcashError
  protocol : (detail : Text) → LnurlcashError
  service_rejected : (reason : Text) → LnurlcashError
  note_pending : LnurlcashError
  note_spent : (reason : Text) (new_secrets : List Text) → LnurlcashError
  note_unknown : (reason : Text) (new_secrets : List Text) → LnurlcashError
  ambiguous : (detail : Text) (new_secrets : List Text) → LnurlcashError
  unverifiable : (detail : Text) (new_secrets : List Text) → LnurlcashError

-- `Display`
unfoldable pub display : LnurlcashError → Text
display (request_refused detail) = detail
display (protocol detail) = detail
display (service_rejected reason) = reason
display (note_spent reason _) = reason
display (note_unknown reason _) = reason
display note_pending = codes "pending"
display (ambiguous detail _) = detail
display (unverifiable detail _) = detail

-- `From<Error>`
unfoldable pub from_error : Errors.Error → LnurlcashError
from_error (Errors.request_refused detail) = request_refused detail
from_error (Errors.protocol detail) = protocol detail
from_error (Errors.service_rejected reason) = service_rejected reason
from_error Errors.note_pending = note_pending
from_error (Errors.note_spent reason secrets) = note_spent reason secrets
from_error (Errors.note_unknown reason secrets) = note_unknown reason secrets
from_error (Errors.ambiguous message secrets) = ambiguous message secrets
from_error (Errors.unverifiable message secrets) = unverifiable message secrets

abbrev pub FfiResult {ℓ} : Type ℓ → Type ℓ
FfiResult A = Common.Result LnurlcashError A

-- The `?` of a result of the crate, with what the value becomes.
abbrev pub convert {ℓ κ} : {A : Type ℓ} {B : Type κ} → (A → B) → Errors.Result A → FfiResult B
convert f (ok value) = ok (f value)
convert f (err e) = err (from_error e)

unfoldable pub parse_body : {Value : Type 0} → JsonApi Value → Text → FfiResult Value
parse_body json body =
    ok_or (json.from_str body) (ambiguous (codes "the service returned an unreadable response") [])

pub data FfiMutationKind : Type 0 where
  melt rotate split merge : FfiMutationKind

unfoldable pub kind_of : FfiMutationKind → Types.MutationKind
kind_of melt = Types.melt
kind_of rotate = Types.rotate
kind_of split = Types.split
kind_of merge = Types.merge

pub record FfiMutation : Type 0 where
  pub signature : Option Text
  pub change_signature : Option Text
  pub pr : Option Text
  pub verify : Option Text

abbrev pub ffi_mutation : Types.MutationResponse → FfiMutation
ffi_mutation response = record {
  signature = response.signature;
  change_signature = response.change_signature;
  pr = response.pr;
  verify = response.verify;
}

unfoldable pub ambiguous_outcome : Text → List Text → LnurlcashError
ambiguous_outcome detail new_secrets = ambiguous detail new_secrets
