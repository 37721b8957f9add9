-- ===== src/Errors/Classify.antt =====
-- `classify_note_error` of src/errors.rs.
use lnurlcash_core.Common.{
  true, false, ◌||◌, [], ◌≡◌, ◌≢◌, refl, sym, ap, ◌∙◌, arith, Bool-cases, inl, inr,
}
use lnurlcash_core.Common.Text.{
  Text, codes, text_eq, text_eq_iff, lower, contains, trim, trim_end, trim_start, drop_while,
  is_whitespace,
}
use lnurlcash_core.Common.Trim.{contains-trim, contains_refl}
use lnurlcash_core.Errors.{
  Error, service_rejected, note_pending, note_spent, note_unknown, new_secrets, is_ambiguous,
  is_output_in_use, is_already_in_use, is_definitive, classify_note_error, output_in_use,
}

-- The error is about the note or the request, as the service refused it for that reason.
pub data IsRefusal (reason : Text) : Error → Type 0 where
  rejected : IsRefusal reason (service_rejected reason)
  pending : IsRefusal reason note_pending
  spent : IsRefusal reason (note_spent reason [])
  unknown : IsRefusal reason (note_unknown reason [])

-- A refusal is read as one of four errors, with the reason as it was sent and no secrets.
pub classify_note_error-IsRefusal : (reason : Text) → IsRefusal reason (classify_note_error reason)
unfolding classify_note_error
classify_note_error-IsRefusal reason =
    elim (Bool-cases (text_eq (lower reason) (codes "pending"))) [
      | inl p ↦ rw p pending
      | inr p ↦
          elim (Bool-cases (
            contains (codes "spent") (lower reason)
            || text_eq (trim (lower reason)) output_in_use)) [
              | inl s ↦ rw (p, s) spent
              | inr s ↦
                  elim (Bool-cases (
                    contains (codes "unknown") (lower reason)
                    || contains (codes "not found") (lower reason))) [
                      | inl u ↦ rw (p, s, u) unknown
                      | inr u ↦ rw (p, s, u) rejected
                    ]
            ]
    ]

-- Every refusal is definitive, never ambiguous, and carries no secrets until they are attached.
IsRefusal-settled :
    {reason : Text} {e : Error}
    → IsRefusal reason e
    → (is_definitive e ≡ true) × (is_ambiguous e ≡ false) × (new_secrets e ≡ [])
unfolding is_definitive is_ambiguous new_secrets
IsRefusal-settled rejected = (refl, refl, refl)
IsRefusal-settled pending = (refl, refl, refl)
IsRefusal-settled spent = (refl, refl, refl)
IsRefusal-settled unknown = (refl, refl, refl)

-- Every reason of a refusal is read as a definitive error, not as an ambiguous one, and with no
-- secrets attached to it.
pub classify_note_error_definitive :
    (reason : Text)
    → (is_definitive (classify_note_error reason) ≡ true)
      × (is_ambiguous (classify_note_error reason) ≡ false)
      × (new_secrets (classify_note_error reason) ≡ [])
classify_note_error_definitive reason = IsRefusal-settled (classify_note_error-IsRefusal reason)

pending-ne-in_use : trim (codes "pending") ≢ output_in_use
unfolding trim trim_start trim_end drop_while is_whitespace codes
pending-ne-in_use = cc

in_use_not_pending : (s : Text) → trim s ≡ output_in_use → text_eq s (codes "pending") ≡ false
in_use_not_pending s h = elim (Bool-cases (text_eq s (codes "pending"))) [
  | inl e ↦ absurd (pending-ne-in_use (sym (ap trim ((text_eq_iff s (codes "pending")).0 e)) ∙ h))
  | inr e ↦ e
]

-- A reason that is `already in use` up to case and spaces around it is read as a spent note, which
-- `is_already_in_use` recognises and `is_output_in_use` does not.
pub already_in_use_spent :
    (reason : Text)
    → trim (lower reason) ≡ output_in_use
    → (classify_note_error reason ≡ note_spent reason [])
      × (is_already_in_use (classify_note_error reason) ≡ true)
      × (is_output_in_use (classify_note_error reason) ≡ false)
unfolding classify_note_error is_already_in_use is_output_in_use
already_in_use_spent reason h =
    let exact : text_eq (trim (lower reason)) output_in_use ≡ true =
      (text_eq_iff _ output_in_use).1 h in
    let inside : contains output_in_use (lower reason) ≡ true =
      contains-trim output_in_use (lower reason) (rw h (contains_refl output_in_use)) in
    let other = in_use_not_pending (lower reason) h in (ground arith, ground arith, ground arith)

output_refusal :
    {reason : Text} {e : Error}
    → IsRefusal reason e
    → is_output_in_use e ≡ true
    → (e ≡ service_rejected reason) × (contains output_in_use (lower reason) ≡ true)
unfolding is_output_in_use
output_refusal rejected h = (refl, h)
output_refusal pending h = cc
output_refusal spent h = cc
output_refusal unknown h = cc

-- An output is reported as in use only on the older wording: a reason that holds `already in use`
-- and is more than it.
pub is_output_in_use-classify_note_error :
    (reason : Text)
    → is_output_in_use (classify_note_error reason) ≡ true
    → (classify_note_error reason ≡ service_rejected reason)
      × (contains output_in_use (lower reason) ≡ true)
      × (trim (lower reason) ≢ output_in_use)
is_output_in_use-classify_note_error reason h =
    let (same, inside) = output_refusal (classify_note_error-IsRefusal reason) h in
    (same, inside, λ exact. cc (h, (already_in_use_spent reason exact).2))
