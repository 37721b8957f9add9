-- ===== src/Protocol/Mutation.antt =====
-- `parse_mutation` and `parse_internal_transfer` of src/protocol.rs.
pub mod Owed
use lnurlcash_core.Common.{
  ℕ, Bool, true, false, List, ◌++◌, Option, none, some, if◌then◌else◌, get_elem?, is_some,
  is_some_and, ok, err, ◌>>=◌, ◌>>◌, guard,
}
use lnurlcash_core.Common.Text.{Text, codes, lower, trim}
use lnurlcash_core.Errors.{Error, new_ambiguous, new_unverifiable, Result}
use lnurlcash_core.Deps.{Deps, SpendApi}
use lnurlcash_core.Protocol.Types.{
  Policy, MutationKind, melt, rotate, split, merge, MutationResponse,
}
use lnurlcash_core.Protocol.Fields.{as_str, field_is, reject_note_error}
use lnurlcash_core.Protocol.NoteInfo.{certificate}

unfoldable pub is_key_output : SpendApi → Text → Bool
is_key_output spend value = spend.is_cp1 (lower (trim value))

abbrev pub unsigned_key_output : Text → Error
unsigned_key_output what = new_unverifiable (
    codes "the service confirmed the "
    ++ what
    ++ codes
        " to a cp1 output but returned no cs1 certificate, so the note it just minted cannot be verified offline. The note exists - keep the key")

abbrev pub unsigned_output : Text → Error
unsigned_output what = new_unverifiable (
    codes "the service confirmed the "
    ++ what
    ++ codes
        " but returned no signature, so the note it just minted cannot be verified offline. The note exists - keep the secret")

-- The closure `owed`.
unfoldable pub owed : SpendApi → List Text → Policy → Option Text → ℕ → Text → Result (Unit {0})
unfolding is_key_output
owed spend outputs policy returned index what =
    if is_some returned
    then ok tt
    else if is_some_and (get_elem? outputs index) (is_key_output spend)
    then err (unsigned_key_output what)
    else if policy.require_signatures
    then err (unsigned_output what)
    else ok tt

abbrev pub unconfirmed_mutation : Error
unconfirmed_mutation =
    new_ambiguous
      (codes "the service did not confirm the operation - it may still have been applied")

abbrev pub unconfirmed_transfer : Error
unconfirmed_transfer =
    new_ambiguous (codes "the service did not confirm the transfer - the note may already be spent")

-- What the outputs of a mutation are owed, in their order.
unfoldable pub owed_all :
    SpendApi → List Text → Policy → MutationKind → Option Text → Option Text → Result (Unit {0})
unfolding owed
owed_all spend outputs policy melt signature change_signature = ok tt
owed_all spend outputs policy rotate signature change_signature =
    owed spend outputs policy signature 0 (codes "rotate")
owed_all spend outputs policy merge signature change_signature =
    owed spend outputs policy signature 0 (codes "merge")
owed_all spend outputs policy split signature change_signature = do
  owed spend outputs policy signature 0 (codes "split")
  owed spend outputs policy change_signature 1 (codes "split's change")

module _ {Value Url : Type 0} (d : Deps Value Url) where
  unfoldable pub parse_mutation :
      Value → MutationKind → List Text → Policy → Result MutationResponse
  unfolding owed_all
  parse_mutation body kind outputs policy = do
    reject_note_error d.json body
    guard (field_is d.json body (codes "status") (codes "OK")) unconfirmed_mutation
    let signature = certificate d body (codes "c") (codes "sig")
    let change_signature = certificate d body (codes "c2") (codes "sig2")
    owed_all d.spend outputs policy kind signature change_signature
    ok (record {
      signature = signature;
      change_signature = change_signature;
      pr = as_str d.json body (codes "pr");
      verify = as_str d.json body (codes "verify");
    })

  unfoldable pub parse_internal_transfer : Value → Result (Unit {0})
  parse_internal_transfer body = do
    reject_note_error d.json body
    guard (field_is d.json body (codes "status") (codes "OK")) unconfirmed_transfer
    ok tt
