-- ===== src/Signature/Note.antt =====
-- What `check_note` of src/signature.rs finds: the note and the verdict of its spend, and a certificate
-- of one of three kinds.
use lnurlcash_core.Common.{
  ℕ, Bool, true, false, List, Option, none, some, ◌≡◌, inl, inr, refl, subst, if◌then◌else◌,
  map_option, map_option-eq-some, option_filter, some-injective, Option-cases, Bool-cases,
}
use lnurlcash_core.Common.Text.{Text}
use lnurlcash_core.Deps.{CryptoApi, CurveApi, UrlApi, BechApi}
use lnurlcash_core.LongBech32.{Checksum}
use lnurlcash_core.Spend.Check.{
  Spend, spend_key, verdict_of, bearer_hash, decode_spend, check_spend,
}
use lnurlcash_core.Signature.{
  CertifiedOver, output_key, legacy_output_key, legacy_hash, NoteCheck,
  verify_legacy_note_signature_hash, verify_note_signature_hash, certified_over, check_note,
}
use lnurlcash_core.Signature.Certificate.{IsCertified, verify_note_signature_hash-IsCertified}

module _ {Url : Type 0} (crypto : CryptoApi) (curve : CurveApi) (bech : BechApi Checksum)
    (u : UrlApi Url) (domain : Text) (amount_msat : ℕ) (signature mint : Text) where
  abbrev pub verifies_legacy : Text → Bool
  verifies_legacy id =
      verify_legacy_note_signature_hash crypto curve bech id amount_msat signature mint

  abbrev pub verifies : Text → Bool
  verifies id = verify_note_signature_hash crypto curve bech u id domain amount_msat signature mint

  -- The certificates of a note's key, or of the hash of the bearer note that it is.
  pub data Certifies (key : List ℕ) (bearer : Option (List ℕ)) : CertifiedOver → Type 0 where
    over_key :
        IsCertified crypto curve bech u (crypto.hex_encode key) domain amount_msat signature mint
        → Certifies key bearer output_key
    over_legacy_key :
        verifies (crypto.hex_encode key) ≡ false
        → verifies_legacy (crypto.hex_encode key) ≡ true
        → Certifies key bearer legacy_output_key
    over_hash :
        {h : List ℕ}
        → verifies (crypto.hex_encode key) ≡ false
        → verifies_legacy (crypto.hex_encode key) ≡ false
        → bearer ≡ some h
        → verifies_legacy (crypto.hex_encode h) ≡ true
        → Certifies key bearer legacy_hash

  hash_found :
      (bearer : Option (List ℕ)) {over : CertifiedOver}
      → map_option
          (λ (_ : List ℕ). legacy_hash)
          (option_filter bearer (λ h. verifies_legacy (crypto.hex_encode h)))
        ≡ some over
      → (h : List ℕ) × (bearer ≡ some h)
        × (verifies_legacy (crypto.hex_encode h) ≡ true)
        × (legacy_hash ≡ over)
  hash_found none e = cc
  hash_found (some h) e = hash_by h (verifies_legacy (crypto.hex_encode h)) refl e
    where
      hash_by :
          (h : List ℕ) (b : Bool) {over : CertifiedOver}
          → verifies_legacy (crypto.hex_encode h) ≡ b
          → map_option (λ (_ : List ℕ). legacy_hash) (if b then some h else none) ≡ some over
          → (h1 : List ℕ) × (some h ≡ some h1)
            × (verifies_legacy (crypto.hex_encode h1) ≡ true)
            × (legacy_hash ≡ over)
      hash_by h true v e = (h, refl, v, some-injective e)
      hash_by h false v e = cc

  certified_over-Certifies :
      (key : List ℕ) (bearer : Option (List ℕ)) {over : CertifiedOver}
      → certified_over crypto curve bech u key bearer domain amount_msat signature mint ≡ some over
      → Certifies key bearer over
  unfolding certified_over
  certified_over-Certifies key bearer {over} e =
      elim (Bool-cases (verifies (crypto.hex_encode key))) [
        | inl now ↦
            let kind = some-injective (rw (certified_over, now) at (e)) in
            subst (Certifies key bearer) kind (
              over_key (
                (verify_note_signature_hash-IsCertified crypto curve bech u (crypto.hex_encode key)
                    domain amount_msat signature mint).0
                  now))
        | inr not_now ↦ elim (Bool-cases (verifies_legacy (crypto.hex_encode key))) [
          | inl before ↦
              let kind = some-injective (rw (certified_over, not_now, before) at (e)) in
              subst (Certifies key bearer) kind (over_legacy_key not_now before)
          | inr not_before ↦
              let (h, is_bearer, hashed, kind) =
                hash_found bearer (rw (certified_over, not_now, not_before) at (e)) in
              subst (Certifies key bearer) kind (over_hash not_now not_before is_bearer hashed)
        ]
      ]

  -- What a note that is found certified is.
  pub record IsChecked (k1 : Text) (check : NoteCheck) : Type 0 where
    pub spend : Spend
    pub decodes : decode_spend crypto curve bech k1 ≡ some spend
    pub names : check.output_key ≡ spend_key spend
    pub judged : check.spend ≡ verdict_of crypto curve bech u domain spend
    pub certified : Certifies (spend_key spend) (bearer_hash crypto curve spend) check.certificate

  abbrev found : Spend → CertifiedOver → NoteCheck
  found spend over = record {
    output_key = spend_key spend;
    spend = verdict_of crypto curve bech u domain spend;
    certificate = over;
  }

  -- If the check of a note finds anything, then the k1 is a spend, the note and the verdict are those of
  -- this spend at the domain, and the signature is a certificate of the kind that is reported: one of the
  -- current rules for the note's key at the domain; or, only if it is none, a superseded one for the key; or,
  -- only if it is neither, a superseded one for the hash of the bearer note that the spend names.
  pub check_note-IsChecked :
      (k1 : Text) {check : NoteCheck}
      → check_note crypto curve bech u k1 domain amount_msat signature mint ≡ some check
      → IsChecked k1 check
  unfolding check_note check_spend
  check_note-IsChecked k1 {check} h = elim (Option-cases (decode_spend crypto curve bech k1)) [
    | inl no_spend ↦ cc (rw (check_note, check_spend, no_spend) at (h))
    | inr (spend, decodes) ↦
        let h1 : map_option (found spend) (
              certified_over crypto curve bech u (spend_key spend) (bearer_hash crypto curve spend)
                domain amount_msat signature mint)
            ≡ some check =
          rw (check_note, check_spend, decodes) at (h) in
        let (over, certifies, made) = map_option-eq-some (found spend) _ h1 in
        subst (IsChecked k1) made (record {
          spend = spend;
          decodes = decodes;
          names = refl;
          judged = refl;
          certified =
              certified_over-Certifies (spend_key spend) (bearer_hash crypto curve spend) certifies;
        })
  ]
