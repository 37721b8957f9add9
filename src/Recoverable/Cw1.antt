-- ===== src/Recoverable/Cw1.antt =====
-- The payload of a `cw1` of src/recoverable.rs. Bytes are numbers, and a slice that does not exist
-- is `none`.
pub mod RoundTrip
use lnurlcash_core.Common.{
  ℕ, zero, suc, ◌+◌, ◌*◌, ◌/◌, ◌%◌, List, [], ◌∷◌, ◌++◌, Option, none, some, ltb, if◌then◌else◌,
  length, and_then, map_option, is_some, ok, err, ◌>>=◌, ◌>>◌, guard,
}
use lnurlcash_core.Common.Text.{Text, codes}
use lnurlcash_core.Errors.{Error, protocol, Result}
use lnurlcash_core.Deps.{BechApi}
use lnurlcash_core.LongBech32.{Checksum}
use lnurlcash_core.Recoverable.Strings.{encode_bytes, decode_bytes}

pub record Cw1 : Type 0 where
  pub locktime : ℕ
  pub sequence : ℕ
  pub script : List ℕ
  pub control_block : List ℕ
  pub witness : List (List ℕ)

-- `u32::to_be_bytes` and `from_be_bytes`
abbrev pub u32_bytes : ℕ → List ℕ
u32_bytes n = (n / 16_777_216 % 256) ∷ (n / 65_536 % 256) ∷ (n / 256 % 256) ∷ (n % 256) ∷ []

abbrev pub u32_of : ℕ → ℕ → ℕ → ℕ → ℕ
u32_of a b c d = a * 16_777_216 + b * 65_536 + c * 256 + d

-- The body of the loop of `encode_cw1`.
unfoldable pub item_bytes : List ℕ → Result (List ℕ)
item_bytes item = do
  guard (ltb (length item) 65_536) (protocol (codes "a cw1 item is at most 65535 bytes"))
  ok ((length item / 256) ∷ (length item % 256) ∷ item)

unfoldable pub items_bytes : List (List ℕ) → Result (List ℕ)
items_bytes [] = ok []
items_bytes (item ∷ items) =
    item_bytes item >>= λ bytes. items_bytes items >>= λ rest. ok (bytes ++ rest)

unfoldable pub cw1_payload : Cw1 → Result (List ℕ)
cw1_payload cw1 = do
  items ← items_bytes (cw1.script ∷ cw1.control_block ∷ cw1.witness)
  ok (u32_bytes cw1.locktime ++ (u32_bytes cw1.sequence ++ items))

-- `get(at..at + len)`, and what is behind it.
unfoldable pub take_bytes : ℕ → List ℕ → Option (List ℕ × List ℕ)
take_bytes zero bytes = some ([], bytes)
take_bytes (suc n) [] = none
take_bytes (suc n) (b ∷ bytes) =
    map_option (λ (parts : List ℕ × List ℕ). (b ∷ parts.0, parts.1)) (take_bytes n bytes)

-- The loop of `decode_cw1`: each round takes two bytes at least, so the length of the payload is
-- fuel enough.
unfoldable pub read_items : ℕ → List ℕ → Option (List (List ℕ))
read_items fuel [] = some []
read_items fuel (a ∷ []) = none
read_items zero (a ∷ b ∷ bytes) = none
read_items (suc fuel) (a ∷ b ∷ bytes) =
    and_then (take_bytes (a * 256 + b) bytes)
      λ parts. map_option (λ (items : List (List ℕ)). parts.0 ∷ items) (read_items fuel parts.1)

-- `output_key_of` of src/spend.rs gives the note's key, `none` if the control block commits to none.
module _ (output_key_of : List ℕ → List ℕ → Option (List ℕ)) where
  unfoldable pub output_key : Cw1 → Option (List ℕ)
  output_key cw1 = output_key_of cw1.script cw1.control_block

  unfoldable pub cw1_of_items : ℕ → ℕ → List (List ℕ) → Option Cw1
  unfolding output_key
  cw1_of_items locktime sequence (script ∷ control_block ∷ witness) =
      let cw1 : Cw1 = record {
        locktime = locktime;
        sequence = sequence;
        script = script;
        control_block = control_block;
        witness = witness;
      } in
      if is_some (output_key cw1) then some cw1 else none
  cw1_of_items locktime sequence _ = none

  unfoldable pub cw1_of_payload : List ℕ → Option Cw1
  cw1_of_payload (a ∷ b ∷ c ∷ d ∷ e ∷ f ∷ g ∷ h ∷ bytes) =
      and_then (read_items (length bytes) bytes) (cw1_of_items (u32_of a b c d) (u32_of e f g h))
  cw1_of_payload _ = none

  module _ (bech : BechApi Checksum) where
    unfoldable pub encode_cw1 : Cw1 → Result (Option Text)
    encode_cw1 cw1 = do payload ← cw1_payload cw1; ok (encode_bytes bech (codes "cw") payload)

    unfoldable pub decode_cw1 : Text → Option Cw1
    decode_cw1 value = and_then (decode_bytes bech (codes "cw") value) cw1_of_payload
