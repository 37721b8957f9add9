-- ===== src/Errors.antt =====
-- src/errors.rs: the taxonomy of errors, and how the reason of a refusal is read.
pub mod Secrets
pub mod Classify
use lnurlcash_core.Common.{Bool, true, false, ◌||◌, List, [], if◌then◌else◌}
use lnurlcash_core.Common as Common
use lnurlcash_core.Common.Text.{Text, codes, text_eq, lower, contains, trim}

abbrev pub output_in_use : Text
output_in_use = codes "already in use"

pub data Error : Type 0 where
  request_refused : (message : Text) → Error
  protocol : (message : Text) → Error
  service_rejected : (reason : Text) → Error
  note_pending : Error
  note_spent : (reason : Text) (new_secrets : List Text) → Error
  note_unknown : (reason : Text) (new_secrets : List Text) → Error
  unverifiable : (message : Text) (new_secrets : List Text) → Error
  ambiguous : (message : Text) (new_secrets : List Text) → Error

abbrev pub Result {ℓ} : Type ℓ → Type ℓ
Result A = Common.Result Error A

-- `Error::ambiguous` and `Error::unverifiable`
abbrev pub new_ambiguous : Text → Error
new_ambiguous message = ambiguous message []

abbrev pub new_unverifiable : Text → Error
new_unverifiable message = unverifiable message []

unfoldable pub with_secrets : Error → List Text → Error
with_secrets (ambiguous message _) secrets = ambiguous message secrets
with_secrets (unverifiable message _) secrets = unverifiable message secrets
with_secrets (note_spent reason _) secrets = note_spent reason secrets
with_secrets (note_unknown reason _) secrets = note_unknown reason secrets
with_secrets other secrets = other

unfoldable pub new_secrets : Error → List Text
new_secrets (ambiguous _ secrets) = secrets
new_secrets (unverifiable _ secrets) = secrets
new_secrets (note_spent _ secrets) = secrets
new_secrets (note_unknown _ secrets) = secrets
new_secrets _ = []

unfoldable pub is_ambiguous : Error → Bool
is_ambiguous (ambiguous _ _) = true
is_ambiguous _ = false

unfoldable pub is_output_in_use : Error → Bool
is_output_in_use (service_rejected reason) = contains output_in_use (lower reason)
is_output_in_use _ = false

unfoldable pub is_already_in_use : Error → Bool
is_already_in_use (service_rejected reason) = contains output_in_use (lower reason)
is_already_in_use (note_spent reason _) = contains output_in_use (lower reason)
is_already_in_use _ = false

unfoldable pub is_definitive : Error → Bool
is_definitive (service_rejected _) = true
is_definitive note_pending = true
is_definitive (note_spent _ _) = true
is_definitive (note_unknown _ _) = true
is_definitive (request_refused _) = true
is_definitive _ = false

unfoldable pub classify_note_error : Text → Error
classify_note_error reason =
    let lowered = lower reason in
    if text_eq lowered (codes "pending")
    then note_pending
    else if contains (codes "spent") lowered || text_eq (trim lowered) output_in_use
    then note_spent reason []
    else if contains (codes "unknown") lowered || contains (codes "not found") lowered
    then note_unknown reason []
    else service_rejected reason
