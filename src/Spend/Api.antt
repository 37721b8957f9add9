-- ===== src/Spend/Api.antt =====
-- The interface that src/protocol.rs and src/note.rs have to src/spend.rs and src/recoverable.rs, filled by
-- these.
use lnurlcash_core.Common.{
  true, Option, none, some, ◌≡◌, ◌∙◌, ◌⊎◌, inl, inr, refl, is_some, map_option, Bool-cases,
}
use lnurlcash_core.Common.Text.{Text}
use lnurlcash_core.Deps.{CryptoApi, CurveApi, UrlApi, BechApi, SpendApi}
use lnurlcash_core.LongBech32.{Checksum}
use lnurlcash_core.Secrets.{is_preimage}
use lnurlcash_core.Recoverable.Strings.{Cs1, is_cp1, decode_cs1_with_amount}
use lnurlcash_core.Recoverable.Naming.{note_id_of}
use lnurlcash_core.Spend.{is_x_only_point}
use lnurlcash_core.Spend.Sighash.{spend_domain_of}
use lnurlcash_core.Spend.Check.{SpendCheck, hex32, decode_note, decode_spend, check_spend}

-- What these promise each other: exactly a spend has a note id and a verdict, and what names a note
-- without spending it is a `cp1` or 64 hex digits.
pub record SpendLaws (s : SpendApi) : Type 0 where
  pub note_id_of-is_spend : (k1 : Text) → is_some (s.note_id_of k1) ≡ s.is_spend k1
  pub check_spend-is_spend : (k1 domain : Text) → is_some (s.check_spend k1 domain) ≡ s.is_spend k1
  pub names_note-is_cp1 :
      (reference : Text)
      → s.names_note reference ≡ true
      → (is_preimage reference ≡ true) ⊎ (s.is_cp1 reference ≡ true)

is_some-map_option {ℓ κ} :
    {A : Type ℓ} {B : Type κ} (f : A → B) (o : Option A) → is_some (map_option f o) ≡ is_some o
is_some-map_option f none = refl
is_some-map_option f (some a) = refl

module _ {Url : Type 0} (crypto : CryptoApi) (curve : CurveApi) (bech : BechApi Checksum)
    (u : UrlApi Url) where
  abbrev pub spend_api : SpendApi
  spend_api = record {
    note_id_of = note_id_of crypto curve bech;
    spend_domain_of = spend_domain_of u bech;
    check_spend = λ k1 domain.
        map_option (λ (check : SpendCheck). check.verdict)
          (check_spend crypto curve bech u k1 domain);
    names_note = λ reference. is_some (decode_note crypto curve bech reference);
    is_spend = λ k1. is_some (decode_spend crypto curve bech k1);
    is_cp1 = λ value. is_cp1 bech (is_x_only_point crypto curve) value;
    cs1_amount =
        λ value. map_option (λ (cs1 : Cs1). cs1.amount_msat) (decode_cs1_with_amount bech value);
  }

  decode_note-is_cp1 :
      (reference : Text)
      → is_some (decode_note crypto curve bech reference) ≡ true
      → (is_preimage reference ≡ true)
        ⊎ (is_cp1 bech (is_x_only_point crypto curve) reference ≡ true)
  unfolding is_cp1 hex32 decode_note
  decode_note-is_cp1 reference h = elim (Bool-cases (is_preimage reference)) [
    | inl preimage ↦ inl preimage
    | inr other ↦ inr (rw (decode_note, other) at (h))
  ]

  -- The code of both modules keeps the promises of the interface.
  pub spend_api-SpendLaws : SpendLaws spend_api
  unfolding note_id_of check_spend
  spend_api-SpendLaws = record {
    note_id_of-is_spend = λ k1. is_some-map_option _ (decode_spend crypto curve bech k1);
    check_spend-is_spend = λ k1 domain.
        is_some-map_option _ (check_spend crypto curve bech u k1 domain)
        ∙ is_some-map_option _ (decode_spend crypto curve bech k1);
    names_note-is_cp1 = decode_note-is_cp1;
  }
