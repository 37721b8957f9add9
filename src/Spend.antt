-- ===== src/Spend.antt =====
-- The hashes, keys and bearer notes of src/spend.rs. An array is a list of bytes; what the curve and
-- the hash give is a parameter.
pub mod Sighash
pub mod Leaf
pub mod Clock
pub mod Check
pub mod Api
use lnurlcash_core.Common.{
  ℕ, zero, suc, ◌+◌, ◌-◌, ◌/◌, ◌%◌, Bool, true, false, not, ◌&&◌, ◌||◌, List, [], ◌∷◌, ◌++◌, Option,
  none, some, ltb, leb, ◌==◌, if◌then◌else◌, length, concat, and_then, map_option, ok, ok_or, ◌>>=◌,
}
use lnurlcash_core.Common.Text.{Text, codes, text_eq}
use lnurlcash_core.Common.Utf8.{as_bytes}
use lnurlcash_core.Errors.{Result, protocol}
use lnurlcash_core.Deps.{CryptoApi, CurveApi}
use lnurlcash_core.Recoverable.Cw1.{Cw1, take_bytes}

abbrev pub tapleaf_version : ℕ
tapleaf_version = 0xc0

abbrev pub key_path_locktime : ℕ
key_path_locktime = 0

abbrev pub key_path_sequence : ℕ
key_path_sequence = 0xffff_ffff

abbrev pub nums_h : List ℕ
nums_h =
    0x50 ∷ 0x92 ∷ 0x9b ∷ 0x74 ∷ 0xc1 ∷ 0xa0 ∷ 0x49 ∷ 0x54 ∷ 0xb7 ∷ 0x8b ∷ 0x4b ∷ 0x60 ∷ 0x35 ∷ 0xe9
    ∷ 0x7a ∷ 0x5e ∷ 0x07 ∷ 0x8a ∷ 0x5a ∷ 0x0f ∷ 0x28 ∷ 0xec ∷ 0x96 ∷ 0xd5 ∷ 0x47 ∷ 0xbf ∷ 0xee
    ∷ 0x9a ∷ 0xce ∷ 0x80 ∷ 0x3a ∷ 0xc0 ∷ []

abbrev pub max_merkle_depth : ℕ
max_merkle_depth = 128

-- `to_le_bytes` of an integer of so many bytes.
unfoldable pub le_bytes : ℕ → ℕ → List ℕ
le_bytes zero n = []
le_bytes (suc width) n = (n % 256) ∷ le_bytes width (n / 256)

unfoldable pub compact_size : ℕ → List ℕ
compact_size n =
    if leb n 0xfc
    then n ∷ []
    else if leb n 0xffff
    then 0xfd ∷ le_bytes 2 n
    else if leb n 0xffff_ffff
    then 0xfe ∷ le_bytes 4 n
    else 0xff ∷ le_bytes 8 n

-- `<=` on arrays of bytes
unfoldable pub bytes_leb : List ℕ → List ℕ → Bool
bytes_leb [] ys = true
bytes_leb (x ∷ xs) [] = false
bytes_leb (x ∷ xs) (y ∷ ys) = ltb x y || (x == y && bytes_leb xs ys)

-- `OP_SHA256 <h> OP_EQUAL`
unfoldable pub bearer_leaf : List ℕ → List ℕ
bearer_leaf h = 0xa8 ∷ 0x20 ∷ (h ++ (0x87 ∷ []))

unfoldable pub bearer_hash_of_leaf : List ℕ → Option (List ℕ)
bearer_hash_of_leaf (a ∷ b ∷ script) =
    if length script == 33 && a == 0xa8 && b == 0x20
    then and_then (take_bytes 32 script)
        (λ parts. if text_eq parts.1 (0x87 ∷ []) then some parts.0 else none)
    else none
bearer_hash_of_leaf _ = none

pub record TaprootTweak : Type 0 where
  pub output_key : List ℕ
  pub parity : ℕ

pub record BearerNote : Type 0 where
  pub output_key : List ℕ
  pub control_block : List ℕ
  pub leaf : List ℕ

module _ (crypto : CryptoApi) where
  unfoldable pub tagged_hash : Text → List (List ℕ) → List ℕ
  tagged_hash tag parts =
      let hashed = crypto.sha256 (as_bytes tag) in
      crypto.sha256 (hashed ++ (hashed ++ concat parts))

  unfoldable pub tapleaf_hash : List ℕ → ℕ → List ℕ
  tapleaf_hash script version =
      tagged_hash (codes "TapLeaf") ((version ∷ []) ∷ compact_size (length script) ∷ script ∷ [])

  unfoldable pub tapbranch_hash : List ℕ → List ℕ → List ℕ
  tapbranch_hash a b =
      if bytes_leb a b
      then tagged_hash (codes "TapBranch") (a ∷ b ∷ [])
      else tagged_hash (codes "TapBranch") (b ∷ a ∷ [])

  -- The loop of `output_key_of` over the merkle path, in so many rounds.
  unfoldable pub fold_path : ℕ → List ℕ → List ℕ → Option (List ℕ)
  fold_path zero node path = some node
  fold_path (suc depth) node path =
      and_then (take_bytes 32 path) λ parts. fold_path depth (tapbranch_hash node parts.0) parts.1

  module _ (curve : CurveApi) where
    unfoldable pub is_x_only_point : List ℕ → Bool
    is_x_only_point x = length x == 32 && curve.is_x_only x

    unfoldable pub tweak_scalar : List ℕ → List ℕ → Option (List ℕ)
    tweak_scalar internal_key merkle_root =
        let t = tagged_hash (codes "TapTweak") (internal_key ∷ merkle_root ∷ []) in
        if curve.is_scalar t then some t else none

    unfoldable pub taproot_tweak : List ℕ → List ℕ → Option TaprootTweak
    taproot_tweak internal_key merkle_root =
        if not (curve.is_x_only internal_key)
        then none
        else and_then (tweak_scalar internal_key merkle_root) λ tweak.
          map_option
            (λ (key : List ℕ × Bool). record {
              output_key = key.0;
              parity = if key.1 then 1 else 0;
            })
            (curve.add_tweak internal_key tweak)

    unfoldable pub taproot_tweak_secret_key : List ℕ → List ℕ → Result (List ℕ)
    taproot_tweak_secret_key secret_key merkle_root = do
      internal ←
          ok_or (curve.x_only_of secret_key)
            (protocol (codes "an internal secret key is a 32-byte scalar in [1, n)"))
      tweak ←
          ok_or (tweak_scalar internal merkle_root)
            (protocol (codes "this tree does not tweak to a usable key"))
      ok_or (curve.secret_add_xonly_tweak secret_key tweak)
          (protocol (codes "this tree does not tweak to a usable key"))

    -- The low bit of the first byte is the parity, the rest of it the version of the leaf.
    unfoldable pub output_key_of : List ℕ → List ℕ → Option (List ℕ)
    output_key_of script [] = none
    output_key_of script (first ∷ block) =
        let len = length (first ∷ block) in
        if ltb len 33 || not ((len - 33) % 32 == 0) || ltb max_merkle_depth ((len - 33) / 32)
        then none
        else and_then (take_bytes 32 block) λ parts.
          and_then (fold_path ((len - 33) / 32) (tapleaf_hash script (first - first % 2)) parts.1)
            λ node.
              and_then (taproot_tweak parts.0 node)
                λ tweaked. if tweaked.parity == first % 2 then some tweaked.output_key else none

    unfoldable pub bearer_note : List ℕ → Option BearerNote
    bearer_note h =
        let leaf = bearer_leaf h in
        map_option
          (λ (tweaked : TaprootTweak). record {
            output_key = tweaked.output_key;
            control_block = (tapleaf_version + tweaked.parity) ∷ nums_h;
            leaf = leaf;
          })
          (taproot_tweak nums_h (tapleaf_hash leaf tapleaf_version))

    unfoldable pub bearer_cw1 : List ℕ → Option Cw1
    bearer_cw1 preimage =
        map_option
          (λ (note : BearerNote). record {
            locktime = key_path_locktime;
            sequence = key_path_sequence;
            script = note.leaf;
            control_block = note.control_block;
            witness = preimage ∷ [];
          })
          (bearer_note (crypto.sha256 preimage))
