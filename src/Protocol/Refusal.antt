-- ===== src/Protocol/Refusal.antt =====
-- When src/protocol.rs reads a response as a refusal.
use lnurlcash_core.Common.{Bool, true, false, [], unwrap_or, ok, err, ◌≡◌}
use lnurlcash_core.Common.Text.{Text, codes}
use lnurlcash_core.Errors.{service_rejected, classify_note_error}
use lnurlcash_core.Deps.{JsonApi}
use lnurlcash_core.Protocol.Fields.{as_str, field_is, reject_error, reject_note_error}

module _ {Value : Type 0} (json : JsonApi Value) (body : Value) where
  abbrev pub says_error : Bool
  says_error = field_is json body (codes "status") (codes "ERROR")

  abbrev pub reason_of : Text
  reason_of = unwrap_or (as_str json body (codes "reason")) []

  pub reject_error-refused :
      says_error ≡ true → reject_error json body ≡ err (service_rejected reason_of)
  unfolding reject_error
  reject_error-refused h = rw h

  pub reject_error-passed : says_error ≡ false → reject_error json body ≡ ok tt
  unfolding reject_error
  reject_error-passed h = rw h

  pub reject_note_error-refused :
      says_error ≡ true → reject_note_error json body ≡ err (classify_note_error reason_of)
  unfolding reject_note_error
  reject_note_error-refused h = rw (reject_error-refused h, reject_note_error)

  pub reject_note_error-passed : says_error ≡ false → reject_note_error json body ≡ ok tt
  unfolding reject_note_error
  reject_note_error-passed h = rw (reject_error-passed h, reject_note_error)
