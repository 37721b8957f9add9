-- ===== src/Ffi/Bytes.antt =====
-- What crosses as hex in src/ffi.rs: byte strings, script-path spends, certificates and hashes. A string
-- that `expect` would not give is `none`.
use lnurlcash_core.Common.{
  ℕ, List, [], ◌∷◌, ◌++◌, Option, ok, ok_or, ◌>>=◌, ◌>>◌, guard, ◌==◌, length, map_option, and_then,
  map,
}
use lnurlcash_core.Common.Text.{Text, codes, trim}
use lnurlcash_core.Common.Decimal.{decimal}
use lnurlcash_core.Deps.{CryptoApi, CurveApi, BechApi}
use lnurlcash_core.LongBech32.{Checksum}
use lnurlcash_core.Recoverable.Strings as Strings
use lnurlcash_core.Recoverable.Cw1 as Cw1
use lnurlcash_core.Spend as Spend
use lnurlcash_core.Spend.Sighash as Sighash
use lnurlcash_core.Spend.Leaf as Leaf
use lnurlcash_core.Ffi.{FfiResult, protocol, convert}

pub record FfiCw1 : Type 0 where
  pub locktime : ℕ
  pub sequence : ℕ
  pub script : Text
  pub control_block : Text
  pub witness : List Text

pub record FfiTaprootTweak : Type 0 where
  pub output_key : Text
  pub parity : ℕ

pub record FfiBearerNote : Type 0 where
  pub output_key : Text
  pub control_block : Text
  pub leaf : Text

pub record FfiCs1 : Type 0 where
  pub amount_msat : ℕ
  pub signature : Text

module _ (crypto : CryptoApi) where
  -- `hex::decode` of what is trimmed, and its error.
  unfoldable pub hex_bytes : Text → Text → FfiResult (List ℕ)
  hex_bytes value what =
      ok_or (crypto.hex_decode (trim value)) (protocol (what ++ codes " must be hex"))

  unfoldable pub hex_array : ℕ → Text → Text → FfiResult (List ℕ)
  unfolding hex_bytes
  hex_array n value what = do
    bytes ← hex_bytes value what
    guard (length bytes == n) (
        protocol (
          what
          ++ (codes " is " ++ (decimal n ++ (codes " bytes, not " ++ decimal (length bytes))))))
    ok bytes

  unfoldable pub hex_items : List Text → FfiResult (List (List ℕ))
  unfolding hex_bytes
  hex_items [] = ok []
  hex_items (item ∷ items) = hex_bytes item (codes "a witness item") >>= λ bytes.
      hex_items items >>= λ rest. ok (bytes ∷ rest)

  abbrev pub ffi_cw1 : Cw1.Cw1 → FfiCw1
  ffi_cw1 cw1 = record {
    locktime = cw1.locktime;
    sequence = cw1.sequence;
    script = crypto.hex_encode cw1.script;
    control_block = crypto.hex_encode cw1.control_block;
    witness = map crypto.hex_encode cw1.witness;
  }

  -- The two hashes and the leaf.
  unfoldable tapleaf_hash : Text → ℕ → FfiResult Text
  unfolding hex_bytes
  tapleaf_hash script_hex leaf_version = do
    script ← hex_bytes script_hex (codes "a leaf script")
    ok (crypto.hex_encode (Spend.tapleaf_hash crypto script leaf_version))

  unfoldable tapbranch_hash : Text → Text → FfiResult Text
  unfolding hex_array
  tapbranch_hash a_hex b_hex = do
    a ← hex_array 32 a_hex (codes "a tree node")
    b ← hex_array 32 b_hex (codes "a tree node")
    ok (crypto.hex_encode (Spend.tapbranch_hash crypto a b))

  unfoldable key_path_sighash : Text → Text → FfiResult Text
  unfolding hex_array
  key_path_sighash output_key_hex domain = do
    output_key ← hex_array 32 output_key_hex (codes "an output key")
    ok (crypto.hex_encode (Sighash.key_path_sighash crypto output_key domain))

  unfoldable script_path_sighash : Text → Text → Text → ℕ → ℕ → FfiResult Text
  unfolding hex_bytes hex_array
  script_path_sighash output_key_hex domain leaf_script_hex locktime sequence = do
    leaf ← hex_bytes leaf_script_hex (codes "a leaf script")
    output_key ← hex_array 32 output_key_hex (codes "an output key")
    ok (
        crypto.hex_encode
          (Sighash.script_path_sighash crypto output_key domain leaf locktime sequence))

  unfoldable check_leaf : ℕ → Text → FfiResult (Option Text)
  unfolding hex_bytes
  check_leaf leaf_version script_hex = do
    script ← hex_bytes script_hex (codes "a leaf script")
    ok (Leaf.check_leaf leaf_version script)

  module _ (curve : CurveApi) (bech : BechApi Checksum) where
    unfoldable pub encode_cw1 : FfiCw1 → FfiResult (Option Text)
    unfolding hex_bytes hex_items
    encode_cw1 cw1 = do
      script ← hex_bytes cw1.script (codes "a leaf script")
      control_block ← hex_bytes cw1.control_block (codes "a control block")
      witness ← hex_items cw1.witness
      convert (λ string. string)
          (Cw1.encode_cw1 (Spend.output_key_of crypto curve) bech (record {
            locktime = cw1.locktime;
            sequence = cw1.sequence;
            script = script;
            control_block = control_block;
            witness = witness;
          }))

    unfoldable pub decode_cw1 : Text → Option FfiCw1
    decode_cw1 value =
        map_option ffi_cw1 (Cw1.decode_cw1 (Spend.output_key_of crypto curve) bech value)

    unfoldable taproot_tweak : Text → Text → FfiResult FfiTaprootTweak
    unfolding hex_array
    taproot_tweak internal_key_hex merkle_root_hex = do
      internal_key ← hex_array 32 internal_key_hex (codes "an internal key")
      merkle_root ← hex_array 32 merkle_root_hex (codes "a merkle root")
      tweaked ←
          ok_or (Spend.taproot_tweak crypto curve internal_key merkle_root)
            (protocol (codes "that key and tree tweak to no usable key"))
      ok (record { output_key = crypto.hex_encode tweaked.output_key; parity = tweaked.parity })

    unfoldable taproot_tweak_secret_key : Text → Text → FfiResult Text
    unfolding hex_array
    taproot_tweak_secret_key secret_key_hex merkle_root_hex = do
      secret_key ← hex_array 32 secret_key_hex (codes "an internal secret key")
      merkle_root ← hex_array 32 merkle_root_hex (codes "a merkle root")
      convert crypto.hex_encode (Spend.taproot_tweak_secret_key crypto curve secret_key merkle_root)

    unfoldable output_key_of : Text → Text → Option Text
    output_key_of script_hex control_block_hex =
        and_then (crypto.hex_decode (trim script_hex)) λ script.
          and_then (crypto.hex_decode (trim control_block_hex)) λ control_block.
            map_option crypto.hex_encode (Spend.output_key_of crypto curve script control_block)

    unfoldable bearer_note : Text → FfiResult FfiBearerNote
    unfolding hex_array
    bearer_note h_hex = do
      h ← hex_array 32 h_hex (codes "a bearer note hash")
      note ←
          ok_or (Spend.bearer_note crypto curve h)
            (protocol (codes "that hash tweaks to no usable key"))
      ok (record {
        output_key = crypto.hex_encode note.output_key;
        control_block = crypto.hex_encode note.control_block;
        leaf = crypto.hex_encode note.leaf;
      })

    unfoldable bearer_cw1 : Text → FfiResult (Option Text)
    unfolding hex_bytes
    bearer_cw1 preimage_hex = do
      preimage ← hex_bytes preimage_hex (codes "a preimage")
      cw1 ←
          ok_or (Spend.bearer_cw1 crypto curve preimage)
            (protocol (codes "that preimage tweaks to no usable key"))
      convert (λ string. string) (Cw1.encode_cw1 (Spend.output_key_of crypto curve) bech cw1)

    unfoldable encode_cp1 : Text → FfiResult (Option Text)
    unfolding hex_array
    encode_cp1 pubkey_x_only_hex = do
      key ← hex_array 32 pubkey_x_only_hex (codes "a note pubkey")
      ok (Strings.encode_cp1 bech key)

    unfoldable decode_cp1 : Text → Option Text
    decode_cp1 value =
        map_option crypto.hex_encode
          (Strings.decode_cp1 bech (Spend.is_x_only_point crypto curve) value)

    unfoldable encode_ck1 : Text → FfiResult (Option Text)
    unfolding hex_array
    encode_ck1 signature_hex = do
      payload ← hex_array 96 signature_hex (codes "an ownership payload")
      ok (Strings.encode_ck1 bech payload)

    unfoldable encode_cs1 : Text → FfiResult (Option Text)
    unfolding hex_array
    encode_cs1 signature_hex = do
      signature ← hex_array 65 signature_hex (codes "a certificate")
      ok (Strings.encode_cs1 bech signature)

    unfoldable decode_cs1 : Text → Option Text
    decode_cs1 value = map_option crypto.hex_encode (Strings.decode_cs1 bech value)

    unfoldable encode_cs1_with_amount : ℕ → Text → FfiResult (Option Text)
    unfolding hex_array
    encode_cs1_with_amount amount_msat signature_hex = do
      signature ← hex_array 65 signature_hex (codes "a certificate")
      ok (Strings.encode_cs1_with_amount bech amount_msat signature)

    unfoldable decode_cs1_with_amount : Text → Option FfiCs1
    decode_cs1_with_amount value =
        map_option
          (λ (cs1 : Strings.Cs1). record {
            amount_msat = cs1.amount_msat;
            signature = crypto.hex_encode cs1.signature;
          })
          (Strings.decode_cs1_with_amount bech value)

    unfoldable decode_any_cs1 : Text → Option Text
    decode_any_cs1 value = map_option crypto.hex_encode (Strings.decode_any_cs1 bech value)
