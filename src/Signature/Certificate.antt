-- ===== src/Signature/Certificate.antt =====
-- What the checks of src/signature.rs accept.
use lnurlcash_core.Common.{
  ℕ, Bool, true, false, ◌&&◌, ◌||◌, List, Option, none, some, ◌≡◌, ◌↔◌, inl, inr, refl, sym, ap,
  ◌∙◌, subst, ◌==◌, ==_iff, get_elem?, take, is_some_and, and_then, and_then-eq-some,
  some-injective, Option-cases, Bool-cases,
}
use lnurlcash_core.Common.Text.{Text, text_eq_iff, text_eq_refl, trim, lower}
use lnurlcash_core.Deps.{CryptoApi, CurveApi, UrlApi, BechApi}
use lnurlcash_core.LongBech32.{Checksum}
use lnurlcash_core.Recoverable.Strings.{Cs1, decode_cs1_with_amount}
use lnurlcash_core.Recoverable.Ownership.{lightning_signed_digest}
use lnurlcash_core.Signature.{
  is_hex_id, note_signature_message_for_hash, certificate_bytes, layout_recovers, recovers_to,
  note_signature_digest_for_hash, verify_note_signature_hash,
}

and_iff : (a b : Bool) → ((a && b) ≡ true) ↔ ((a ≡ true) × (b ≡ true))
and_iff true b = (λ h. (refl, h), λ h. h.1)
and_iff false b = (λ h. cc, λ h. cc (h.0))

or_false : (a : Bool) → (a || false) ≡ a
or_false true = refl
or_false false = refl

is_some_and_iff {ℓ} :
    {A : Type ℓ} (o : Option A) (p : A → Bool)
    → (is_some_and o p ≡ true) ↔ ((a : A) × (o ≡ some a) × (p a ≡ true))
is_some_and_iff none p = (λ h. cc, λ h. cc (h.1))
is_some_and_iff {A} (some a) p =
    (λ h. (a, refl, h), λ h. subst (λ (t : A). p t ≡ true) (sym (some-injective h.1)) h.2)

module _ {Url : Type 0} (crypto : CryptoApi) (curve : CurveApi) (bech : BechApi Checksum)
    (u : UrlApi Url) where
  -- A certificate under the current rules of the id at the domain for the amount by the mint's key: a
  -- `cs1` that states the amount, and whose signature, recovery id last, recovers to the key over the digest
  -- of the message.
  pub record IsCertified (id domain : Text) (amount_msat : ℕ) (signature mint : Text) : Type 0 where
    pub hex : is_hex_id (trim id) ≡ true
    pub message : Text
    pub signs : note_signature_message_for_hash u bech (trim id) domain amount_msat ≡ some message
    pub cs1 : Cs1
    pub parses : decode_cs1_with_amount bech (trim signature) ≡ some cs1
    pub states : cs1.amount_msat ≡ amount_msat
    pub recovery : ℕ
    pub has_recovery : get_elem? cs1.signature 64 ≡ some recovery
    pub point : List ℕ
    pub recovers :
        curve.recover_ecdsa
          (take 64 cs1.signature)
          recovery
          (lightning_signed_digest crypto curve message)
        ≡ some point
    pub is_mint : crypto.hex_encode point ≡ lower (trim mint)

  certificate_bytes-strict :
      (signature : Text) (amount_msat : ℕ) {bytes : List ℕ}
      → certificate_bytes crypto bech signature amount_msat false ≡ some bytes
      → (cs1 : Cs1) × (decode_cs1_with_amount bech (trim signature) ≡ some cs1)
        × (cs1.amount_msat ≡ amount_msat)
        × (cs1.signature ≡ bytes)
  unfolding certificate_bytes
  certificate_bytes-strict signature amount_msat {bytes} h =
      elim (Option-cases (decode_cs1_with_amount bech (trim signature))) [
        | inl unread ↦ cc (rw (certificate_bytes, unread) at (h))
        | inr (cs1, read) ↦ elim (Bool-cases (cs1.amount_msat == amount_msat)) [
          | inl states ↦
              let taken = some-injective (rw (certificate_bytes, read, states) at (h)) in
              (cs1, read, (==_iff _ _).0 states, taken)
          | inr differs ↦ cc (rw (certificate_bytes, read, differs) at (h))
        ]
      ]

  recovers_to-strict :
      (digest bytes : List ℕ) (mint : Text)
      → recovers_to crypto curve digest bytes false mint
        ≡ layout_recovers crypto curve digest
            (lower (trim mint))
            (take 64 bytes)
            (get_elem? bytes 64)
  unfolding recovers_to
  recovers_to-strict digest bytes mint = or_false _

  layout_recovers_iff :
      (digest : List ℕ) (target : Text) (compact : List ℕ) (recovery : Option ℕ)
      → layout_recovers crypto curve digest target compact recovery ≡ true
      → (id : ℕ) × (recovery ≡ some id)
        × (point : List ℕ) × (curve.recover_ecdsa compact id digest ≡ some point)
        × (crypto.hex_encode point ≡ target)
  unfolding layout_recovers
  layout_recovers_iff digest target compact recovery h =
      let (point, found, equal) = (is_some_and_iff (and_then recovery _) _).0 h in
      let (id, at, recovered) = and_then-eq-some recovery _ found in
      (id, at, point, recovered, (text_eq_iff _ _).0 equal)

  digest-eq-some :
      (id domain : Text) (amount_msat : ℕ) {digest : List ℕ}
      → note_signature_digest_for_hash crypto curve bech u id domain amount_msat ≡ some digest
      → (message : Text) × (note_signature_message_for_hash u bech id domain amount_msat
          ≡ some message)
        × (lightning_signed_digest crypto curve message ≡ digest)
  unfolding note_signature_digest_for_hash
  digest-eq-some id domain amount_msat {digest} h =
      elim (Option-cases (note_signature_message_for_hash u bech id domain amount_msat)) [
        | inl nowhere ↦ cc (rw (note_signature_digest_for_hash, nowhere) at (h))
        | inr (message, signs) ↦
            (message, signs, some-injective (rw (note_signature_digest_for_hash, signs) at (h)))
      ]

  verify-IsCertified :
      (id domain : Text) (amount_msat : ℕ) (signature mint : Text)
      → verify_note_signature_hash crypto curve bech u id domain amount_msat signature mint ≡ true
      → IsCertified id domain amount_msat signature mint
  unfolding verify_note_signature_hash
  verify-IsCertified id domain amount_msat signature mint h =
      let (hex, h1) = (and_iff (is_hex_id (trim id)) _).0 h in
      let (digest, hashed, h2) =
        (is_some_and_iff
            (note_signature_digest_for_hash crypto curve bech u (trim id) domain amount_msat) _).0
          h1 in
      let (bytes, given, h3) =
        (is_some_and_iff (certificate_bytes crypto bech signature amount_msat false) _).0 h2 in
      let (message, signs, digests) = digest-eq-some (trim id) domain amount_msat hashed in
      let (cs1, parses, states, same) = certificate_bytes-strict signature amount_msat given in
      let (recovery, has_recovery, point, recovers, is_mint) =
        layout_recovers_iff digest (lower (trim mint)) (take 64 bytes) (get_elem? bytes 64)
          (sym (recovers_to-strict digest bytes mint) ∙ h3) in
      record {
        hex = hex;
        message = message;
        signs = signs;
        cs1 = cs1;
        parses = parses;
        states = states;
        recovery = recovery;
        has_recovery = ap (λ (t : List ℕ). get_elem? t 64) same ∙ has_recovery;
        point = point;
        recovers = rw (same) (rw (digests) recovers);
        is_mint = is_mint;
      }

  IsCertified-verify :
      (id domain : Text) (amount_msat : ℕ) (signature mint : Text)
      → IsCertified id domain amount_msat signature mint
      → verify_note_signature_hash crypto curve bech u id domain amount_msat signature mint ≡ true
  unfolding verify_note_signature_hash note_signature_digest_for_hash certificate_bytes
      layout_recovers
  IsCertified-verify id domain amount_msat signature mint c =
      let amount : (c.cs1.amount_msat == amount_msat) ≡ true = (==_iff _ _).1 c.states in
      rw (c.hex, c.signs)
        (rw (certificate_bytes, c.parses, amount)
          (rw (recovers_to-strict, layout_recovers, c.has_recovery)
            (rw (c.recovers) (rw (c.is_mint, text_eq_refl) refl))))

  -- A signature verifies exactly if it is such a certificate.
  pub verify_note_signature_hash-IsCertified :
      (id domain : Text) (amount_msat : ℕ) (signature mint : Text)
      → (verify_note_signature_hash crypto curve bech u id domain amount_msat signature mint ≡ true)
        ↔ IsCertified id domain amount_msat signature mint
  verify_note_signature_hash-IsCertified id domain amount_msat signature mint = (
    verify-IsCertified id domain amount_msat signature mint,
    IsCertified-verify id domain amount_msat signature mint,
  )
