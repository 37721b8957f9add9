-- ===== src/Protocol/Types.antt =====
-- The data of src/protocol.rs.
use lnurlcash_core.Common.{ℕ, Bool, true, false, List, [], Option, leb, is_some_and}
use lnurlcash_core.Common.Text.{Text}
use lnurlcash_core.Fees.{MintFee}

pub record Policy : Type 0 where
  pub require_signatures : Bool
  pub require_mint_pubkey : Bool

abbrev pub default_policy : Policy
default_policy = record { require_signatures = false; require_mint_pubkey = true }

pub data MutationKind : Type 0 where
  melt rotate split merge : MutationKind

pub record Request : Type 0 where
  pub url : Text
  pub new_secrets : List Text
  pub outputs : List Text

abbrev pub plain : Text → Request
plain url = record { url = url; new_secrets = []; outputs = [] }

abbrev pub naming : Text → List Text → Request
naming url outputs = record (plain url) { outputs = outputs }

pub record NoteInfoByHash : Type 0 where
  pub callback : Text
  pub max_withdrawable : ℕ
  pub min_withdrawable : ℕ
  pub default_description : Option Text
  pub mint_pubkey : Option Text
  pub signature : Option Text

pub record WithdrawRequestInfo : Type 0 where
  pub callback : Text
  pub k1 : Text
  pub max_withdrawable : ℕ
  pub min_withdrawable : ℕ
  pub default_description : Option Text
  pub mint_pubkey : Option Text
  pub signature : Option Text

pub record MintAddressInfo : Type 0 where
  pub callback : Text
  pub pay_link : Text
  pub max_withdrawable : ℕ
  pub min_withdrawable : ℕ
  pub node_pubkey : Option Text
  pub node_alias : Option Text
  pub node_uri : Option Text
  pub node_color : Option Text
  pub node_capacity_msat : Option ℕ
  pub node_num_channels : Option ℕ
  pub node_num_peers : Option ℕ
  pub node_uris : Option (List Text)
  pub sunset_date : Option Text
  pub outstanding_notes_msat : Option ℕ

pub record PayRequestInfo : Type 0 where
  pub callback : Text
  pub min_sendable : ℕ
  pub max_sendable : ℕ
  pub metadata : Text
  pub withdraw_link : Option Text
  pub mint_pubkey : Option Text
  pub mint_fee : Option MintFee
  pub comment_allowed : Option ℕ
  pub mint_to_hash : Bool

abbrev pub mint_comment_length : ℕ
mint_comment_length = 64

unfoldable pub names_mint_output : PayRequestInfo → Bool
names_mint_output info = is_some_and info.comment_allowed (leb mint_comment_length)

pub record InvoiceResult : Type 0 where
  pub pr : Text
  pub verify : Option Text
  pub disposable : Bool

pub record VerifyResult : Type 0 where
  pub settled : Bool
  pub preimage : Option Text
  pub pr : Text

pub record MutationResponse : Type 0 where
  pub signature : Option Text
  pub change_signature : Option Text
  pub pr : Option Text
  pub verify : Option Text
