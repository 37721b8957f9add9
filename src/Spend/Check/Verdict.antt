-- ===== src/Spend/Check/Verdict.antt =====
-- When `check_spend` of src/spend.rs says that a spend opens its note.
use lnurlcash_core.Common.{
  ℕ, ◌≤◌, Bool, true, false, not, leb, leb→le, ◌&&◌, ◌||◌, List, [], ◌∷◌, ◌++◌, Option, none, some,
  ◌≡◌, ◌↔◌, refl, sym, ◌∙◌, subst, arith, if◌then◌else◌, length, length-append, is_some_and,
}
use lnurlcash_core.Common.Text.{Text, codes, text_eq_iff, text_eq_refl}
use lnurlcash_core.Common.Utf8.{as_bytes}
use lnurlcash_core.Deps.{CryptoApi, CurveApi, UrlApi, BechApi, SpendVerdict, opens, fails}
use lnurlcash_core.LongBech32.{Checksum}
use lnurlcash_core.Recoverable.Cw1.{Cw1, take_bytes}
use lnurlcash_core.Recoverable.Cw1.RoundTrip.{take_bytes-append}
use lnurlcash_core.Recoverable.Ownership.{
  NoteOwner, legacy_ownership_digest, legacy_ownership_message, recover_note_ownership_pubkey,
}
use lnurlcash_core.Spend.{bearer_hash_of_leaf}
use lnurlcash_core.Spend.Sighash.{spend_domain_of, key_path_sighash}
use lnurlcash_core.Spend.Leaf.{check_leaf}
use lnurlcash_core.Spend.Check.{
  Spend, key_path, legacy_key_path, script_path, spend_key, script_path_verdict, bearer_verdict,
  leaf_verdict, owner_verdict, verdict_of, decode_spend, check_spend, max_stack_element,
}
use lnurlcash_core.Spend.Check.Shape.{IsShaped, decode_spend-IsShaped}

le→leb : (a b : ℕ) → a ≤ b → leb a b ≡ true
le→leb a b h = ground arith

is_some_and-eq-true {ℓ} :
    {A : Type ℓ} (o : Option A) (p : A → Bool)
    → is_some_and o p ≡ true
    → (a : A) × (o ≡ some a) × (p a ≡ true)
is_some_and-eq-true none p h = cc
is_some_and-eq-true (some a) p h = (a, refl, h)

module _ {Url : Type 0} (crypto : CryptoApi) (curve : CurveApi) (bech : BechApi Checksum)
    (u : UrlApi Url) (domain : Text) where
  -- What opens a note under the current rules: a Schnorr signature by its key over the key path's sighash
  -- at the domain's host, or a leaf that passes, which asks for a hash, with a single item of a stack
  -- element's size that hashes to it.
  pub data Opening : Spend → Type 0 where
    signed :
        {key signature host : List ℕ}
        → curve.is_schnorr signature ≡ true
        → spend_domain_of u bech domain ≡ some host
        → curve.verify_raw key (key_path_sighash crypto key host) signature ≡ true
        → Opening (key_path key signature)
    revealed :
        {key block preimage : List ℕ} {version : ℕ} {cw1 : Cw1}
        → cw1.control_block ≡ version ∷ block
        → check_leaf version cw1.script ≡ none
        → bearer_hash_of_leaf cw1.script ≡ some (crypto.sha256 preimage)
        → cw1.witness ≡ preimage ∷ []
        → length preimage ≤ max_stack_element
        → Opening (script_path key cw1)

  -- The verdict on a key path, by its three checks.
  abbrev owner_by : List ℕ → Bool → Bool → Bool → Option NoteOwner
  owner_by key schnorr now before =
      if not schnorr
      then none
      else if now
      then some (record { pubkey_x_only = key; legacy = false })
      else if before
      then some (record { pubkey_x_only = key; legacy = true })
      else none

  owner_by-opens :
      (key : List ℕ) (schnorr now before : Bool)
      → owner_verdict crypto curve (owner_by key schnorr now before) ≡ opens
      → (schnorr ≡ true) × (now ≡ true)
  owner_by-opens key true true before h = (refl, refl)
  owner_by-opens key true false true h = cc
  owner_by-opens key true false false h = cc
  owner_by-opens key false now before h = cc

  abbrev signs_now : List ℕ → List ℕ → Bool
  signs_now key signature =
      is_some_and (spend_domain_of u bech domain)
        (λ host. curve.verify_raw key (key_path_sighash crypto key host) signature)

  abbrev signs_before : List ℕ → List ℕ → Bool
  signs_before key signature =
      curve.verify_raw key (legacy_ownership_digest crypto curve) signature
      || curve.verify_raw key (as_bytes (legacy_ownership_message crypto curve)) signature

  verdict_of-key_path :
      (key signature : List ℕ)
      → IsShaped crypto curve bech (key_path key signature)
      → verdict_of crypto curve bech u domain (key_path key signature)
        ≡ owner_verdict crypto curve (
            owner_by key
              (curve.is_schnorr signature)
              (signs_now key signature)
              (signs_before key signature))
  unfolding verdict_of recover_note_ownership_pubkey
  verdict_of-key_path key signature (size, rest, point) =
      let total : length (key ++ signature) ≡ 96 =
        omega (arith, size, rest, length-append key signature) in
      let split : take_bytes 32 (key ++ signature) ≡ some (key, signature) =
        subst (λ n. take_bytes n (key ++ signature) ≡ some (key, signature)) size
          (take_bytes-append key signature) in
      rw (total) (rw (split) (rw (point) refl))

  key_path-Opening :
      (key signature : List ℕ)
      → IsShaped crypto curve bech (key_path key signature)
      → verdict_of crypto curve bech u domain (key_path key signature) ≡ opens
      → Opening (key_path key signature)
  key_path-Opening key signature shaped h =
      let (schnorr, now) =
        owner_by-opens key _ _ _ (sym (verdict_of-key_path key signature shaped) ∙ h) in
      let (host, names, verifies) = is_some_and-eq-true (spend_domain_of u bech domain) _ now in
      signed schnorr names verifies

  leaf_verdict-opens :
      (reason : Option Text) (verdict : SpendVerdict)
      → leaf_verdict crypto reason verdict ≡ opens
      → (reason ≡ none) × (verdict ≡ opens)
  leaf_verdict-opens none verdict h = (refl, h)
  leaf_verdict-opens (some reason) verdict h = cc

  satisfied-parts :
      (small equal : Bool)
      → (if small && equal then opens else fails (codes "the witness does not satisfy the leaf"))
        ≡ opens
      → (small ≡ true) × (equal ≡ true)
  satisfied-parts true true h = (refl, refl)
  satisfied-parts true false h = cc
  satisfied-parts false equal h = cc

  bearer_verdict-opens :
      (hash : Option (List ℕ)) (witness : List (List ℕ))
      → bearer_verdict crypto hash witness ≡ opens
      → (preimage : List ℕ) × (hash ≡ some (crypto.sha256 preimage))
        × (witness ≡ preimage ∷ [])
        × (length preimage ≤ max_stack_element)
  bearer_verdict-opens none witness h = cc
  bearer_verdict-opens (some hash) [] h = cc
  bearer_verdict-opens (some hash) (preimage ∷ _ ∷ _) h = cc
  bearer_verdict-opens (some hash) (preimage ∷ []) h =
      let (small, equal) = satisfied-parts (leb (length preimage) max_stack_element) _ h in
      let same : crypto.sha256 preimage ≡ hash = (text_eq_iff _ _).0 equal in
      (preimage, rw same refl, refl, leb→le _ _ small)

  script_path_by :
      {key : List ℕ} {cw1 : Cw1} (control_block : List ℕ)
      → cw1.control_block ≡ control_block
      → script_path_verdict crypto (record {
        locktime = cw1.locktime;
        sequence = cw1.sequence;
        script = cw1.script;
        control_block = control_block;
        witness = cw1.witness;
      })
        ≡ opens
      → Opening (script_path key cw1)
  unfolding script_path_verdict
  script_path_by [] block h = cc
  script_path_by {key} {cw1} (version ∷ rest) block h =
      let (passes, opened) = leaf_verdict-opens (check_leaf version cw1.script) _ h in
      let (preimage, hash, single, small) =
        bearer_verdict-opens (bearer_hash_of_leaf cw1.script) cw1.witness opened in
      revealed block passes hash single small

  script_path-Opening :
      (key : List ℕ) (cw1 : Cw1)
      → script_path_verdict crypto cw1 ≡ opens
      → Opening (script_path key cw1)
  unfolding script_path_verdict
  script_path-Opening key cw1 h = script_path_by cw1.control_block refl h

  Opening-opens :
      (spend : Spend)
      → IsShaped crypto curve bech spend
      → Opening spend
      → verdict_of crypto curve bech u domain spend ≡ opens
  unfolding verdict_of script_path_verdict
  Opening-opens (key_path key signature) shaped (signed schnorr names verifies) =
      verdict_of-key_path key signature shaped ∙ rw (schnorr) (rw (names) (rw (verifies) refl))
  Opening-opens (legacy_key_path key) shaped opening = elim opening [ ]
  Opening-opens (script_path key cw1) shaped (revealed {preimage} block passes hash single small) =
      rw (block) (
        rw (passes, hash, single)
          (rw (le→leb _ _ small, text_eq_refl (crypto.sha256 preimage)) refl))

  verdict_of-Opening :
      (spend : Spend)
      → IsShaped crypto curve bech spend
      → verdict_of crypto curve bech u domain spend ≡ opens
      → Opening spend
  unfolding verdict_of
  verdict_of-Opening (key_path key signature) shaped h = key_path-Opening key signature shaped h
  verdict_of-Opening (legacy_key_path key) shaped h = cc
  verdict_of-Opening (script_path key cw1) shaped h = script_path-Opening key cw1 h

  -- A spend that decodes is said to open its note under the current rules exactly if it does.
  pub check_spend-Opening :
      (k1 : Text) {spend : Spend}
      → decode_spend crypto curve bech k1 ≡ some spend
      → (check_spend crypto curve bech u k1 domain
          ≡ some (record { output_key = spend_key spend; verdict = opens }))
        ↔ Opening spend
  unfolding check_spend
  check_spend-Opening k1 {spend} h = rw (h) (
    λ e. verdict_of-Opening spend (decode_spend-IsShaped crypto curve bech k1 h) (cc e),
    λ opening. rw (Opening-opens spend (decode_spend-IsShaped crypto curve bech k1 h) opening) refl,
  )
