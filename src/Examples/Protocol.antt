-- ===== src/Examples/Protocol.antt =====
-- The theorems on src/protocol.rs at concrete responses.
use lnurlcash_core.Common.{not, List, [], ◌∷◌, ◌≡◌, refl, if◌then◌else◌, ok, ◌>>=◌}
use lnurlcash_core.Common.Text.{
  Text, codes, lower, lower_char, is_ascii_uppercase, text_eq, trim, trim_start, trim_end,
  drop_while, is_whitespace, is_ascii_hexdigit, is_ascii_digit, byte_len, starts_with, strip_prefix,
  eq_ignore_case,
}
use lnurlcash_core.Note.{append_pairs, note_k1, first_param, find_param}
use lnurlcash_core.Protocol.Types.{default_policy, split}
use lnurlcash_core.Protocol.Fields.{
  as_str, as_u64, field_is, reject_note_error, reject_error, is_compressed_pubkey,
}
use lnurlcash_core.Protocol.NoteInfo.{
  certificate, parse_note_info, parse_note_info_by_hash, check_echo, check_mint_pubkey,
  min_withdrawable, same_note,
}
use lnurlcash_core.Protocol.NoteInfo.Sound.{
  IsAccepted, forget, parse_note_info-IsAccepted, parse_note_info_by_hash-parse_note_info,
}
use lnurlcash_core.Protocol.Mutation.{parse_mutation}
use lnurlcash_core.Protocol.Mutation.Owed.{
  reading, refused, unconfirmed, uncertified, confirmed, is_missing, reading-parse_mutation,
}
use lnurlcash_core.Samples.{
  confirmation, note_state, secret, callback, shown, sample_deps, sample_json, sample_spend,
}
use lnurlcash_core.Samples.Url.{sample_url}

-- A split into a key output and a hash output.
abbrev two_outputs : List Text
two_outputs = codes "cp1q" ∷ secret ∷ []

reading-parse_mutation_example :
    reading (parse_mutation sample_deps confirmation split two_outputs default_policy) ≡ (
      if field_is sample_json confirmation (codes "status") (codes "ERROR")
      then refused
      else if not (field_is sample_json confirmation (codes "status") (codes "OK"))
      then unconfirmed
      else if is_missing sample_spend two_outputs default_policy split
          (certificate sample_deps confirmation (codes "c") (codes "sig"))
          (certificate sample_deps confirmation (codes "c2") (codes "sig2"))
      then uncertified
      else confirmed)
reading-parse_mutation_example =
    reading-parse_mutation sample_deps confirmation split two_outputs default_policy

abbrev queried_url : Text
unfolding append_pairs
queried_url = append_pairs sample_url ((codes "k1", secret) ∷ []) callback

parse_note_info-IsAccepted_example :
    IsAccepted sample_deps note_state queried_url default_policy shown
unfolding parse_note_info reject_note_error reject_error field_is as_str as_u64 min_withdrawable
    check_echo check_mint_pubkey is_compressed_pubkey same_note certificate note_k1 first_param
    find_param text_eq codes lower lower_char is_ascii_uppercase trim trim_start trim_end drop_while
    is_whitespace is_ascii_hexdigit is_ascii_digit byte_len starts_with strip_prefix eq_ignore_case
    queried_url append_pairs sample_url
parse_note_info-IsAccepted_example =
    parse_note_info-IsAccepted sample_deps note_state queried_url default_policy shown refl

parse_note_info_by_hash-parse_note_info_example :
    parse_note_info_by_hash sample_deps note_state default_policy ≡ (
      parse_note_info sample_deps note_state queried_url default_policy >>= λ info.
      ok (forget info))
unfolding check_echo same_note note_k1 first_param find_param as_str text_eq codes lower lower_char
    is_ascii_uppercase trim trim_start trim_end drop_while is_whitespace eq_ignore_case strip_prefix
    queried_url append_pairs sample_url
parse_note_info_by_hash-parse_note_info_example =
    parse_note_info_by_hash-parse_note_info sample_deps note_state queried_url secret default_policy
      refl refl
