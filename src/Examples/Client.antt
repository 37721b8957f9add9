-- ===== src/Examples/Client.antt =====
-- The theorems on src/client.rs for concrete services.
use lnurlcash_core.Common.{ℕ, zero, suc, ◌<◌, true, [], ◌∷◌, some, none, ◌≡◌, refl, arith, ok, err}
use lnurlcash_core.Common.Text.{
  Text, codes, text_eq, lower, lower_char, is_ascii_uppercase, after_first, take_while, trim,
  trim_start, trim_end, drop_while, is_whitespace, is_ascii_hexdigit, is_ascii_digit, byte_len,
  starts_with, strip_prefix, contains, eq_ignore_case,
}
use lnurlcash_core.Common.Decimal.{decimal, digits_before}
use lnurlcash_core.Urls.{is_allowed_service_url}
use lnurlcash_core.Note.{
  with_new_k1, rebuild, append_pairs, rewrite_query, rewrite_pairs, emitted, see, note_k1,
  first_param, find_param,
}
use lnurlcash_core.Protocol.Fields.{
  as_str, as_u64, field_is, reject_note_error, reject_error, is_compressed_pubkey,
}
use lnurlcash_core.Protocol.NoteInfo.{
  certificate, parse_note_info, check_echo, check_mint_pubkey, min_withdrawable, same_note,
}
use lnurlcash_core.Protocol.Mutation.{parse_mutation}
use lnurlcash_core.Protocol.Requests.{note_info_request}
use lnurlcash_core.Samples.Url.{sample_url}
use lnurlcash_core.Errors.{
  Error, request_refused, service_rejected, new_secrets, classify_note_error,
}
use lnurlcash_core.Protocol.Types.{Request, melt, rotate, MutationResponse}
use lnurlcash_core.Client.Monad.{Net, ClientConfig}
use lnurlcash_core.Client.Run.{attempts_of, run, receive, run_mutation}
use lnurlcash_core.Client.Mutate.{
  is_sendable, Ends, most_sendings, resent, run_mutation_unsent, run_mutation_sent,
}
use lnurlcash_core.Client.Replay.{IsLost, run_mutation_confirmed}
use lnurlcash_core.Client.Refused.{IsUnknown, run_mutation-IsUnknown, run_mutation_refused}
use lnurlcash_core.Client.{
  RotateOutcome, SplitOutcome, rotate_note, split_note, merge_notes, settle_note, fetch_note_info,
}
use lnurlcash_core.Client.Safety.{Safe, rotate_note-Safe, split_note-Safe, merge_notes-Safe}
use lnurlcash_core.Client.Settle.{Settled, settle_note-Settled}
use lnurlcash_core.Samples.{
  confirmation, refusal, mute, declining, secret, other_secret, callback, shown, sample_deps,
  sample_config, lossy, silent, untouched,
}

abbrev rotation : Request
rotation = record { url = callback; new_secrets = secret ∷ []; outputs = secret ∷ [] }

abbrev no_answer : MutationResponse
no_answer = record { signature = none; change_signature = none; pr = none; verify = none }

sendable : is_sendable sample_deps lossy sample_config rotation ≡ true
unfolding is_allowed_service_url sample_url text_eq take_while codes after_first
sendable = refl

confirms :
    parse_mutation sample_deps confirmation rotate (secret ∷ []) sample_config.policy ≡ ok no_answer
unfolding parse_mutation reject_note_error certificate codes text_eq lower lower_char trim
    trim_start trim_end drop_while is_whitespace strip_prefix
confirms = refl

run_mutation_sent_example :
    Ends sample_deps lossy sample_config
      (most_sendings sample_config.mutation_retries melt)
      rotation
      untouched
      (run_mutation sample_deps lossy sample_config rotation melt untouched)
run_mutation_sent_example =
    run_mutation_sent sample_deps lossy sample_config rotation melt untouched sendable

abbrev disconnected : ClientConfig
disconnected = record sample_config { offline = true }

run_mutation_unsent_example :
    (m : Text) × (run_mutation sample_deps lossy disconnected rotation rotate untouched
      ≡ (err (request_refused m), untouched))
run_mutation_unsent_example =
    run_mutation_unsent sample_deps lossy disconnected rotation rotate untouched refl

IsLost-once :
    (j : ℕ) → j < 1 → IsLost sample_deps lossy sample_config (lossy (resent j callback []) callback)
IsLost-once zero less = tt
IsLost-once (suc j) less = absurd (omega arith)

run_mutation_confirmed_example :
    run_mutation sample_deps lossy sample_config rotation rotate untouched
    ≡ (ok no_answer, record untouched { sent = resent 2 callback [] })
unfolding codes text_eq
run_mutation_confirmed_example =
    run_mutation_confirmed sample_deps lossy sample_config rotation rotate sendable no_answer
      (codes "confirmation") confirmation refl confirms 1 untouched (omega arith) IsLost-once refl

run_mutation-IsUnknown_example :
    (e : Error) × (run_mutation sample_deps mute sample_config rotation rotate untouched ≡ (
      err e,
      record untouched { sent = resent (suc (attempts_of sample_config rotate)) callback [] },
    ))
    × IsUnknown sample_deps mute sample_config rotation rotate sendable e
run_mutation-IsUnknown_example =
    run_mutation-IsUnknown sample_deps mute sample_config rotation rotate sendable untouched
      (λ j few. tt)

abbrev declined : Error
declined = service_rejected (codes "Output already in use.")

declines :
    parse_mutation sample_deps refusal rotate (secret ∷ []) sample_config.policy ≡ err declined
unfolding parse_mutation reject_note_error reject_error field_is as_str classify_note_error contains
    starts_with codes text_eq lower lower_char is_ascii_uppercase trim trim_start trim_end
    drop_while is_whitespace
declines = refl

IsLost-at_first :
    (j : ℕ)
    → j < 1
    → IsLost sample_deps declining sample_config (declining (resent j callback []) callback)
IsLost-at_first zero less = tt
IsLost-at_first (suc j) less = absurd (omega arith)

run_mutation_refused_example :
    (run_mutation sample_deps declining sample_config rotation rotate untouched
      ≡ (err declined, record untouched { sent = resent 2 callback [] }))
    × (new_secrets declined ≡ [])
unfolding codes text_eq
run_mutation_refused_example =
    run_mutation_refused sample_deps declining sample_config rotation rotate sendable
      (codes "refusal") refusal declined refl declines refl 1 untouched (omega arith)
      IsLost-at_first refl

rotate_note-Safe_example :
    Safe
      (λ (r : RotateOutcome). r.k1 ≡ other_secret)
      (other_secret ∷ [])
      untouched
      (rotate_note sample_deps lossy sample_config callback secret untouched)
rotate_note-Safe_example =
    rotate_note-Safe sample_deps lossy sample_config callback secret untouched

split_note-Safe_example :
    Safe
      (λ (r : SplitOutcome). (r.k1 ≡ other_secret) × (r.change ≡ other_secret))
      (other_secret ∷ other_secret ∷ [])
      untouched
      (split_note sample_deps lossy sample_config callback (secret ∷ []) 1000 untouched)
split_note-Safe_example =
    split_note-Safe sample_deps lossy sample_config callback (secret ∷ []) 1000 untouched

merge_notes-Safe_example :
    Safe
      (λ (r : RotateOutcome). r.k1 ≡ other_secret)
      (other_secret ∷ [])
      untouched
      (merge_notes sample_deps lossy sample_config callback (secret ∷ secret ∷ []) untouched)
merge_notes-Safe_example =
    merge_notes-Safe sample_deps lossy sample_config callback (secret ∷ secret ∷ []) untouched

abbrev exposed_url : Text
exposed_url =
    sample_url.append_pair (sample_url.append_pair callback (codes "k1") secret) (codes "amount")
      (codes "5000")

abbrev shown_once : Net
shown_once = record { sent = exposed_url ∷ []; drawn = 0 }

parses : with_new_k1 sample_url sample_deps.spend callback secret 5000 none ≡ some exposed_url
unfolding with_new_k1 rebuild append_pairs rewrite_query rewrite_pairs emitted see codes text_eq
    lower lower_char is_ascii_uppercase decimal digits_before sample_url
parses = refl

answers :
    fetch_note_info sample_deps silent sample_config exposed_url untouched ≡ (ok shown, shown_once)
unfolding fetch_note_info note_info_request run receive is_allowed_service_url parse_note_info
    rebuild append_pairs reject_note_error reject_error field_is as_str as_u64 min_withdrawable
    check_echo check_mint_pubkey is_compressed_pubkey same_note certificate note_k1 first_param
    find_param text_eq codes lower lower_char is_ascii_uppercase trim trim_start trim_end drop_while
    take_while after_first is_whitespace is_ascii_hexdigit is_ascii_digit byte_len starts_with
    strip_prefix eq_ignore_case sample_url
answers = refl

settle_note-Settled_example :
    Settled other_secret secret none shown_once
      (rotate_note sample_deps silent sample_config callback secret shown_once).0
      (settle_note sample_deps silent sample_config callback secret 5000 none untouched).0
      (settle_note sample_deps silent sample_config callback secret 5000 none untouched).1
settle_note-Settled_example =
    settle_note-Settled sample_deps silent sample_config callback secret exposed_url 5000 none shown
      untouched shown_once parses answers
