-- ===== src/Spend/Check.antt =====
-- The spends of src/spend.rs, what they name, and whether they open their note.
pub mod Bearer
pub mod Shape
pub mod Verdict
use lnurlcash_core.Common.{
  ℕ, Bool, true, false, not, ◌&&◌, List, [], ◌∷◌, ◌++◌, Option, none, some, ◌==◌, leb,
  if◌then◌else◌, length, unwrap_or, and_then, map_option, option_filter,
}
use lnurlcash_core.Common.Text.{Text, codes, text_eq, trim}
use lnurlcash_core.Deps.{
  CryptoApi, CurveApi, UrlApi, BechApi, SpendVerdict, opens, opens_legacy, unevaluated, fails,
}
use lnurlcash_core.LongBech32.{Checksum}
use lnurlcash_core.Secrets.{is_preimage}
use lnurlcash_core.Recoverable.Strings.{DecodedCk1, current, legacy, decode_cp1, decode_ck1}
use lnurlcash_core.Recoverable.Cw1.{Cw1, take_bytes, decode_cw1}
use lnurlcash_core.Recoverable.Ownership.{NoteOwner, legacy_ck1_key, recover_note_ownership_pubkey}
use lnurlcash_core.Spend.{
  is_x_only_point, output_key_of, BearerNote, bearer_hash_of_leaf, bearer_note, bearer_cw1,
}
use lnurlcash_core.Spend.Leaf.{check_leaf}

abbrev pub max_stack_element : ℕ
max_stack_element = 520

pub data Spend : Type 0 where
  key_path : (output_key signature : List ℕ) → Spend
  legacy_key_path : (output_key : List ℕ) → Spend
  script_path : (output_key : List ℕ) (cw1 : Cw1) → Spend

pub record SpendCheck : Type 0 where
  pub output_key : List ℕ
  pub verdict : SpendVerdict

-- `Spend::output_key` and `SpendVerdict::opens`
unfoldable pub spend_key : Spend → List ℕ
spend_key (key_path output_key _) = output_key
spend_key (legacy_key_path output_key) = output_key
spend_key (script_path output_key _) = output_key

unfoldable pub verdict_opens : SpendVerdict → Bool
verdict_opens opens = true
verdict_opens opens_legacy = true
verdict_opens _ = false

abbrev pub array_32 : List ℕ → Option (List ℕ)
array_32 bytes = if length bytes == 32 then some bytes else none

module _ (crypto : CryptoApi) where
  unfoldable pub hex32 : Text → Option (List ℕ)
  hex32 value =
      if not (is_preimage value) then none else and_then (crypto.hex_decode (trim value)) array_32

  abbrev pub is_satisfied : List ℕ → List (List ℕ) → Bool
  is_satisfied h (preimage ∷ []) =
      leb (length preimage) max_stack_element && text_eq (crypto.sha256 preimage) h
  is_satisfied h _ = false

  abbrev pub bearer_verdict : Option (List ℕ) → List (List ℕ) → SpendVerdict
  bearer_verdict none witness = unevaluated
  bearer_verdict (some h) witness =
      if is_satisfied h witness
      then opens
      else fails (codes "the witness does not satisfy the leaf")

  abbrev pub leaf_verdict : Option Text → SpendVerdict → SpendVerdict
  leaf_verdict (some reason) verdict = fails reason
  leaf_verdict none verdict = verdict

  -- The first byte of a control block that commits to a key is there.
  unfoldable pub script_path_verdict : Cw1 → SpendVerdict
  script_path_verdict cw1 = elim cw1.control_block [
    | [] ↦ fails (codes "index out of bounds")
    | version ∷ _ ↦
        leaf_verdict (check_leaf version cw1.script)
          (bearer_verdict (bearer_hash_of_leaf cw1.script) cw1.witness)
  ]

  module _ (curve : CurveApi) where
    -- `Spend::bearer_hash`
    unfoldable pub bearer_hash : Spend → Option (List ℕ)
    bearer_hash (script_path output_key cw1) = and_then (bearer_hash_of_leaf cw1.script) λ h.
        and_then (bearer_note crypto curve h)
          λ note. if text_eq note.output_key output_key then some h else none
    bearer_hash _ = none

    abbrev pub owner_verdict : Option NoteOwner → SpendVerdict
    owner_verdict none = fails (codes "the signature does not open this note here")
    owner_verdict (some owner) = if owner.legacy then opens_legacy else opens

    module _ (bech : BechApi Checksum) where
      unfoldable pub decode_note : Text → Option (List ℕ)
      decode_note value = elim (hex32 value) [
        | some h ↦ map_option (λ (note : BearerNote). note.output_key) (bearer_note crypto curve h)
        | none ↦ decode_cp1 bech (is_x_only_point crypto curve) value
      ]

      -- The spends that a `ck1` and a `cw1` decode to.
      abbrev pub spend_of_ck1 : DecodedCk1 → Option Spend
      spend_of_ck1 (current payload) = and_then (take_bytes 32 payload) λ parts.
          if is_x_only_point crypto curve parts.0 then some (key_path parts.0 parts.1) else none
      spend_of_ck1 (legacy signature) =
          map_option legacy_key_path (legacy_ck1_key crypto curve signature)

      abbrev pub spend_of_cw1 : Cw1 → Option Spend
      spend_of_cw1 cw1 =
          map_option (λ (key : List ℕ). script_path key cw1)
            (output_key_of crypto curve cw1.script cw1.control_block)

      unfoldable pub decode_spend : Text → Option Spend
      decode_spend k1 =
          let value = trim k1 in
          elim (hex32 value) [
            | some preimage ↦ and_then (bearer_cw1 crypto curve preimage) spend_of_cw1
            | none ↦ elim (decode_ck1 bech value) [
              | some decoded ↦ spend_of_ck1 decoded
              | none ↦ and_then (decode_cw1 (output_key_of crypto curve) bech value) spend_of_cw1
            ]
          ]

      module _ {Url : Type 0} (u : UrlApi Url) where
        unfoldable pub verdict_of : Text → Spend → SpendVerdict
        verdict_of domain (key_path output_key signature) =
            owner_verdict
              (recover_note_ownership_pubkey crypto curve u bech (output_key ++ signature) domain)
        verdict_of domain (legacy_key_path _) = opens_legacy
        verdict_of domain (script_path _ cw1) = script_path_verdict cw1

        unfoldable pub check_spend : Text → Text → Option SpendCheck
        check_spend k1 domain =
            map_option
              (λ (spend : Spend). record {
                output_key = spend_key spend;
                verdict = verdict_of domain spend;
              })
              (decode_spend k1)
