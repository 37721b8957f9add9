-- ===== src/Spend/Check/Bearer.antt =====
-- The bearer notes of src/spend.rs: the short forms of a bearer note name and open what its full `cw1`
-- does.
use lnurlcash_core.Common.{
  ℕ, ◌+◌, ◌-◌, ◌%◌, ◌<◌, true, List, [], ◌∷◌, ◌++◌, Option, none, some, ◌≡◌, refl, ◌∙◌, subst,
  arith, ◌==◌, ==_iff, length, length-append, get_elem?, map_option, some-injective,
}
use lnurlcash_core.Common.Text.{Text, text_eq_refl, trim}
use lnurlcash_core.Deps.{CryptoApi, CurveApi, UrlApi, BechApi, opens}
use lnurlcash_core.LongBech32.{Checksum}
use lnurlcash_core.Recoverable.Cw1.{Cw1, take_bytes}
use lnurlcash_core.Recoverable.Cw1.RoundTrip.{take_bytes-append}
use lnurlcash_core.Spend.{
  tapleaf_version, nums_h, tapleaf_hash, fold_path, TaprootTweak, taproot_tweak, output_key_of,
  BearerNote, bearer_leaf, bearer_hash_of_leaf, bearer_note, bearer_cw1,
}
use lnurlcash_core.Spend.Leaf.{is_op_success, skip, skip_of, check_leaf}
use lnurlcash_core.Spend.Leaf.Reference.{walk_ended, walk_on}
use lnurlcash_core.Spend.Leaf.Instructions.{get_elem?-beyond}
use lnurlcash_core.Spend.Check.{
  script_path, spend_key, hex32, script_path_verdict, bearer_hash, decode_note, decode_spend,
  verdict_of, check_spend,
}

last_of-append : (h : List ℕ) (b n : ℕ) → length h ≡ n → get_elem? (h ++ (b ∷ [])) n ≡ some b
last_of-append [] b n e = subst (λ n. get_elem? (b ∷ []) n ≡ some b) e refl
last_of-append (a ∷ h) b n e =
    subst (λ n. get_elem? (a ∷ (h ++ (b ∷ []))) n ≡ some b) e (last_of-append h b (length h) refl)

taproot_tweak-parity :
    (crypto : CryptoApi) (curve : CurveApi) (key root : List ℕ) {tweaked : TaprootTweak}
    → taproot_tweak crypto curve key root ≡ some tweaked
    → tweaked.parity < 2
unfolding taproot_tweak
taproot_tweak-parity crypto curve key root {tweaked} h = ground arith

module _ (h : List ℕ) (sized : length h ≡ 32) where
  length-bearer_leaf : length (bearer_leaf h) ≡ 35
  unfolding bearer_leaf
  length-bearer_leaf = omega (arith, sized, length-append h (0x87 ∷ []))

  bearer_hash_of_leaf-bearer_leaf : bearer_hash_of_leaf (bearer_leaf h) ≡ some h
  unfolding bearer_hash_of_leaf bearer_leaf
  bearer_hash_of_leaf-bearer_leaf =
      let size : length (h ++ (0x87 ∷ [])) ≡ 33 =
        omega (arith, sized, length-append h (0x87 ∷ [])) in
      let split : take_bytes 32 (h ++ (0x87 ∷ [])) ≡ some (h, 0x87 ∷ []) =
        subst (λ n. take_bytes n (h ++ (0x87 ∷ [])) ≡ some (h, 0x87 ∷ [])) sized
          (take_bytes-append h (0x87 ∷ [])) in
      rw (size, split) (rw (text_eq_refl (0x87 ∷ [])) refl)

  check_leaf-bearer_leaf :
      (parity : ℕ) → parity < 2 → check_leaf (tapleaf_version + parity) (bearer_leaf h) ≡ none
  unfolding check_leaf bearer_leaf skip_of is_op_success
  check_leaf-bearer_leaf parity small =
      let leaf = bearer_leaf h in
      let version : tapleaf_version + parity - (tapleaf_version + parity) % 2 ≡ tapleaf_version =
        omega (arith) in
      rw (version, length-bearer_leaf)
        (walk_on 34 leaf 0 (skip 0) refl refl
          ∙ walk_on 33 leaf 1 (skip 32) refl refl
          ∙ walk_on 32 leaf 34 (skip 0) (last_of-append h 0x87 32 sized) refl
          ∙ walk_ended 31 leaf 35 (get_elem?-beyond leaf 35 (omega (arith, length-bearer_leaf))))

module _ (crypto : CryptoApi) (curve : CurveApi) where
  abbrev note_of : List ℕ → TaprootTweak → BearerNote
  note_of h tweaked = record {
    output_key = tweaked.output_key;
    control_block = (tapleaf_version + tweaked.parity) ∷ nums_h;
    leaf = bearer_leaf h;
  }

  abbrev bearer_root : List ℕ → List ℕ
  bearer_root h = tapleaf_hash crypto (bearer_leaf h) tapleaf_version

  bearer_note-eq-some :
      (h : List ℕ) (found : Option TaprootTweak) {note : BearerNote}
      → map_option (note_of h) found ≡ some note
      → (tweaked : TaprootTweak) × (found ≡ some tweaked) × (note_of h tweaked ≡ note)
  bearer_note-eq-some h none e = cc
  bearer_note-eq-some h (some tweaked) e = (tweaked, refl, some-injective e)

  output_key_of-note_of :
      (h : List ℕ) (tweaked : TaprootTweak)
      → taproot_tweak crypto curve nums_h (bearer_root h) ≡ some tweaked
      → output_key_of crypto curve (bearer_leaf h) ((tapleaf_version + tweaked.parity) ∷ nums_h)
        ≡ some tweaked.output_key
  unfolding output_key_of fold_path take_bytes
  output_key_of-note_of h tweaked e =
      let small = taproot_tweak-parity crypto curve nums_h (bearer_root h) e in
      let version : tapleaf_version + tweaked.parity - (tapleaf_version + tweaked.parity) % 2
          ≡ tapleaf_version =
        omega arith in
      let parity : (tweaked.parity == (tapleaf_version + tweaked.parity) % 2) ≡ true =
        (==_iff _ _).1 (omega arith) in
      rw (version, e, parity) refl

  -- The `cw1` of a bearer note commits to the key that names the note, and its leaf passes.
  record IsBearer (h : List ℕ) (note : BearerNote) : Type 0 where
    pub commits : output_key_of crypto curve note.leaf note.control_block ≡ some note.output_key
    pub leaf : bearer_hash_of_leaf note.leaf ≡ some h
    pub block :
        (version : ℕ) × (note.control_block ≡ version ∷ nums_h)
        × (check_leaf version note.leaf ≡ none)

  bearer_note-IsBearer :
      (h : List ℕ) {note : BearerNote}
      → length h ≡ 32
      → bearer_note crypto curve h ≡ some note
      → IsBearer h note
  unfolding bearer_note
  bearer_note-IsBearer h {note} sized e =
      let (tweaked, found, same) =
        bearer_note-eq-some h (taproot_tweak crypto curve nums_h (bearer_root h)) e in
      subst (IsBearer h) same (record {
        commits = output_key_of-note_of h tweaked found;
        leaf = bearer_hash_of_leaf-bearer_leaf h sized;
        block = (
          tapleaf_version + tweaked.parity,
          refl,
          check_leaf-bearer_leaf h sized tweaked.parity
              (taproot_tweak-parity crypto curve nums_h (bearer_root h) found),
        );
      })

  abbrev cw1_of : List ℕ → BearerNote → Cw1
  cw1_of preimage note = record {
    locktime = 0;
    sequence = 0xffff_ffff;
    script = note.leaf;
    control_block = note.control_block;
    witness = preimage ∷ [];
  }

  hex32-length :
      (value : Text) {bytes : List ℕ} → hex32 crypto value ≡ some bytes → length bytes ≡ 32
  unfolding hex32
  hex32-length value {bytes} h = ground arith

  script_path_verdict-cw1_of :
      (preimage : List ℕ) {note : BearerNote}
      → length preimage ≡ 32
      → IsBearer (crypto.sha256 preimage) note
      → script_path_verdict crypto (cw1_of preimage note) ≡ opens
  unfolding script_path_verdict
  script_path_verdict-cw1_of preimage {note} sized bearer =
      let (version, block, passes) = bearer.block in
      rw (block) (rw (passes, bearer.leaf, sized) (rw (text_eq_refl (crypto.sha256 preimage)) refl))

  decode_spend-bearer_note :
      (bech : BechApi Checksum) (k1 : Text) (preimage : List ℕ) (note : BearerNote)
      → hex32 crypto (trim k1) ≡ some preimage
      → IsBearer (crypto.sha256 preimage) note
      → bearer_note crypto curve (crypto.sha256 preimage) ≡ some note
      → decode_spend crypto curve bech k1
        ≡ some (script_path note.output_key (cw1_of preimage note))
  unfolding decode_spend bearer_cw1
  decode_spend-bearer_note bech k1 preimage note spent bearer found =
      rw (decode_spend, spent) (rw (found) (rw (bearer.commits) refl))

  module _ {Url : Type 0} (bech : BechApi Checksum) (u : UrlApi Url)
      (sized : (bytes : List ℕ) → length (crypto.sha256 bytes) ≡ 32) where
    -- A k1 of 64 hex digits whose hash is that of a bearer note is a spend of that note which opens it
    -- at every domain; and the note is the one that the hash in 64 hex digits names.
    pub check_spend-bearer_note :
        (k1 reference domain : Text) (preimage : List ℕ) (note : BearerNote)
        → hex32 crypto (trim k1) ≡ some preimage
        → hex32 crypto reference ≡ some (crypto.sha256 preimage)
        → bearer_note crypto curve (crypto.sha256 preimage) ≡ some note
        → (check_spend crypto curve bech u k1 domain
            ≡ some (record { output_key = note.output_key; verdict = opens }))
          × (map_option (bearer_hash crypto curve) (decode_spend crypto curve bech k1)
              ≡ some (some (crypto.sha256 preimage)))
          × (decode_note crypto curve bech reference ≡ some note.output_key)
    unfolding check_spend decode_note bearer_hash verdict_of spend_key
    check_spend-bearer_note k1 reference domain preimage note spent named found =
        let bearer = bearer_note-IsBearer (crypto.sha256 preimage) (sized preimage) found in
        let spend = decode_spend-bearer_note bech k1 preimage note spent bearer found in
        let opened = script_path_verdict-cw1_of preimage (hex32-length (trim k1) spent) bearer in
        (
          rw (spend) (rw (opened) refl),
          rw (spend) (rw (bearer.leaf) (rw (found) (rw (text_eq_refl note.output_key) refl))),
          rw (decode_note, named) (rw (found) refl),
        )
