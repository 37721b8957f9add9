-- ===== src/Protocol/Mutation/Owed.antt =====
-- What `parse_mutation` of src/protocol.rs says of a response.
use lnurlcash_core.Common.{
  ℕ, zero, suc, Bool, true, false, not, ◌&&◌, ◌||◌, List, [], Option, ◌≡◌, inl, inr, refl, ◌∙◌,
  arith, if◌then◌else◌, get_elem?, is_some, is_some_and, ok, err, ◌>>=◌, Bool-cases,
}
use lnurlcash_core.Common.Text.{Text, codes}
use lnurlcash_core.Errors.{
  Error, service_rejected, note_pending, note_spent, note_unknown, unverifiable, ambiguous, Result,
}
use lnurlcash_core.Errors.Classify.{
  IsRefusal, rejected, pending, spent, unknown, classify_note_error-IsRefusal,
}
use lnurlcash_core.Deps.{Deps, SpendApi}
use lnurlcash_core.Protocol.Types.{Policy, MutationKind, melt, split, MutationResponse}
use lnurlcash_core.Protocol.Fields.{field_is}
use lnurlcash_core.Protocol.Refusal.{reject_note_error-refused, reject_note_error-passed}
use lnurlcash_core.Protocol.NoteInfo.{certificate}
use lnurlcash_core.Protocol.Mutation.{is_key_output, owed_all, parse_mutation}

-- Whether a kind of mutation has an output of that index.
abbrev pub mints : MutationKind → ℕ → Bool
mints melt i = false
mints split zero = true
mints split (suc zero) = true
mints split (suc (suc i)) = false
mints _ zero = true
mints _ (suc i) = false

-- Whether the response owes that output a certificate.
abbrev pub owes : SpendApi → List Text → Policy → MutationKind → ℕ → Bool
owes spend outputs policy kind i =
    mints kind i
    && (is_some_and (get_elem? outputs i) (is_key_output spend) || policy.require_signatures)

-- Whether a certificate that is owed is missing.
abbrev pub is_missing :
    SpendApi → List Text → Policy → MutationKind → Option Text → Option Text → Bool
is_missing spend outputs policy kind signature change_signature =
    (owes spend outputs policy kind 0 && not (is_some signature))
    || (owes spend outputs policy kind 1 && not (is_some change_signature))

-- The four ways in which a response to a mutation is read.
pub data Reading : Type 0 where
  refused unconfirmed uncertified confirmed unexpected : Reading

abbrev pub reading {ℓ} : {A : Type ℓ} → Result A → Reading
reading (ok _) = confirmed
reading (err (service_rejected _)) = refused
reading (err note_pending) = refused
reading (err (note_spent _ [])) = refused
reading (err (note_unknown _ [])) = refused
reading (err (unverifiable _ [])) = uncertified
reading (err (ambiguous _ [])) = unconfirmed
reading (err _) = unexpected

refused_reading {ℓ} :
    (A : Type ℓ) {r : Text} {e : Error} → IsRefusal r e → reading {A = A} (err e) ≡ refused
refused_reading A rejected = refl
refused_reading A pending = refl
refused_reading A spent = refl
refused_reading A unknown = refl

reading_then {ℓ} :
    {A : Type ℓ} (m : Result (Unit {0})) (a : A) → reading (m >>= λ _. ok a) ≡ reading m
reading_then (ok u) a = refl
reading_then (err (service_rejected _)) a = refl
reading_then (err note_pending) a = refl
reading_then (err (note_spent _ [])) a = refl
reading_then (err (note_unknown _ [])) a = refl
reading_then (err (unverifiable _ [])) a = refl
reading_then (err (ambiguous _ [])) a = refl
reading_then (err _) a = refl

reading-owed_all :
    (spend : SpendApi) (outputs : List Text) (policy : Policy) (kind : MutationKind)
    (c c2 : Option Text)
    → reading (owed_all spend outputs policy kind c c2)
      ≡ (if is_missing spend outputs policy kind c c2 then uncertified else confirmed)
unfolding owed_all
reading-owed_all spend outputs policy melt c c2 = ground arith
reading-owed_all spend outputs policy _ c c2 = ground arith

module _ {Value Url : Type 0} (d : Deps Value Url) where
  -- A response to a mutation is read as refused exactly if it says ERROR, else as unconfirmed
  -- exactly if it does not say OK, else as uncertified exactly if a certificate that it owes is
  -- missing, and else as confirmed.
  pub reading-parse_mutation :
      (body : Value) (kind : MutationKind) (outputs : List Text) (policy : Policy)
      → reading (parse_mutation d body kind outputs policy) ≡ (
          if field_is d.json body (codes "status") (codes "ERROR")
          then refused
          else if not (field_is d.json body (codes "status") (codes "OK"))
          then unconfirmed
          else if is_missing d.spend outputs policy kind
              (certificate d body (codes "c") (codes "sig"))
              (certificate d body (codes "c2") (codes "sig2"))
          then uncertified
          else confirmed)
  unfolding parse_mutation
  reading-parse_mutation body kind outputs policy =
      elim (Bool-cases (field_is d.json body (codes "status") (codes "ERROR"))) [
        | inl e ↦
            rw (e, reject_note_error-refused d.json body e)
              (refused_reading MutationResponse (classify_note_error-IsRefusal _))
        | inr e ↦ elim (Bool-cases (field_is d.json body (codes "status") (codes "OK"))) [
          | inr silent ↦ rw (e, silent, reject_note_error-passed d.json body e)
          | inl confirms ↦
              rw (e, confirms, reject_note_error-passed d.json body e)
                (reading_then _ _ ∙ reading-owed_all d.spend outputs policy kind _ _)
        ]
      ]
