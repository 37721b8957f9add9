-- ===== src/Errors/Secrets.antt =====
-- `with_secrets` and `new_secrets` of src/errors.rs.
use lnurlcash_core.Common.{Bool, true, false, List, [], ◌≡◌, arith, if◌then◌else◌}
use lnurlcash_core.Common.Text.{Text}
use lnurlcash_core.Errors.{
  Error, request_refused, note_spent, note_unknown, unverifiable, ambiguous, with_secrets,
  new_secrets, is_ambiguous, is_output_in_use, is_already_in_use, is_definitive,
}

-- The four kinds of error that have a place for secrets.
abbrev pub carries_secrets : Error → Bool
carries_secrets (ambiguous _ _) = true
carries_secrets (unverifiable _ _) = true
carries_secrets (note_spent _ _) = true
carries_secrets (note_unknown _ _) = true
carries_secrets _ = false

-- Attaching secrets: an ambiguous, unverifiable, spent or unknown error hands back what was attached,
-- every other error hands back none, and no predicate on the error has another answer than before.
pub with_secrets_lem :
    (e : Error) (secrets : List Text)
    → (new_secrets (with_secrets e secrets) ≡ (if carries_secrets e then secrets else []))
      × (is_ambiguous (with_secrets e secrets) ≡ is_ambiguous e)
      × (is_definitive (with_secrets e secrets) ≡ is_definitive e)
      × (is_output_in_use (with_secrets e secrets) ≡ is_output_in_use e)
      × (is_already_in_use (with_secrets e secrets) ≡ is_already_in_use e)
unfolding with_secrets new_secrets is_ambiguous is_definitive is_output_in_use is_already_in_use
with_secrets_lem (request_refused _) secrets = ground arith
with_secrets_lem _ secrets = ground arith

-- The last secrets attached are the ones kept.
pub with_secrets-with_secrets :
    (e : Error) (s t : List Text) → with_secrets (with_secrets e s) t ≡ with_secrets e t
unfolding with_secrets
with_secrets-with_secrets (request_refused _) s t = ground arith
with_secrets-with_secrets _ s t = ground arith

pub is_ambiguous-carries : (e : Error) → is_ambiguous e ≡ true → carries_secrets e ≡ true
unfolding is_ambiguous
is_ambiguous-carries (ambiguous _ _) h = ground arith
is_ambiguous-carries _ h = ground arith
