-- ===== src/Examples/Errors.antt =====
-- The theorems on src/errors.rs at concrete reasons.
use lnurlcash_core.Common.{true, false, List, [], ◌∷◌, ◌≡◌, refl, if◌then◌else◌}
use lnurlcash_core.Common.Text.{
  Text, codes, lower, lower_char, is_ascii_uppercase, trim, trim_start, trim_end, drop_while,
  is_whitespace,
}
use lnurlcash_core.Errors.{
  Error, note_spent, ambiguous, with_secrets, new_secrets, is_ambiguous, is_definitive,
  is_output_in_use, is_already_in_use, classify_note_error,
}
use lnurlcash_core.Errors.Secrets.{carries_secrets, with_secrets_lem}
use lnurlcash_core.Errors.Classify.{already_in_use_spent}

abbrev kept : List Text
kept = codes "aa" ∷ codes "bb" ∷ []

abbrev lost_answer : Error
lost_answer = ambiguous (codes "lost") []

with_secrets_lem_example :
    (new_secrets (with_secrets lost_answer kept)
      ≡ (if carries_secrets lost_answer then kept else []))
    × (is_ambiguous (with_secrets lost_answer kept) ≡ is_ambiguous lost_answer)
    × (is_definitive (with_secrets lost_answer kept) ≡ is_definitive lost_answer)
    × (is_output_in_use (with_secrets lost_answer kept) ≡ is_output_in_use lost_answer)
    × (is_already_in_use (with_secrets lost_answer kept) ≡ is_already_in_use lost_answer)
with_secrets_lem_example = with_secrets_lem lost_answer kept

abbrev collision : Text
collision = codes " Already in use "

already_in_use_spent_example :
    (classify_note_error collision ≡ note_spent collision [])
    × (is_already_in_use (classify_note_error collision) ≡ true)
    × (is_output_in_use (classify_note_error collision) ≡ false)
unfolding lower lower_char is_ascii_uppercase trim trim_start trim_end drop_while is_whitespace
    codes
already_in_use_spent_example = already_in_use_spent collision refl
