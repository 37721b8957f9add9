-- ===== src/Recoverable/Keys.antt =====
-- The keys of src/recoverable.rs: the notes below a service's root, the extended public key of a share,
-- and the superseded tweaks.
pub mod Watch
use lnurlcash_core.Common.{
  ℕ, ◌+◌, List, [], ◌∷◌, ◌++◌, Bool, Option, none, some, if◌then◌else◌, take, drop, is_some,
  and_then, ok, err, ok_or, ◌>>=◌, ◌>>◌, guard,
}
use lnurlcash_core.Common.Text.{Text, codes}
use lnurlcash_core.Common.Utf8.{as_bytes}
use lnurlcash_core.Common.Decimal.{decimal}
use lnurlcash_core.Errors.{Error, Result, protocol}
use lnurlcash_core.Deps.{CryptoApi, HmacApi, CurveApi, UrlApi, BechApi}
use lnurlcash_core.LongBech32.{Checksum}
use lnurlcash_core.Recoverable.Strings.{encode_bytes, decode_fixed}
use lnurlcash_core.Recoverable.Cw1.{u32_bytes}
use lnurlcash_core.Recoverable.Path.{NotePath, indices, chain_share, harden, below_hardened}
use lnurlcash_core.Recoverable.Ownership.{x_of}
use lnurlcash_core.Spend.{tagged_hash}
use lnurlcash_core.Cash.{
  CashNode, invalid_key, derive_cash_child, derive_cash_child_pub, cash_node_public_key, descend,
  derive_cash_root, derive_cash_domain_node, derive_service_root,
}

pub record Cx1 : Type 0 where
  pub chain_code : List ℕ
  pub pubkey : List ℕ

pub record LegacyCx1 : Type 0 where
  pub pubkey_x_only : List ℕ
  pub chain_code : List ℕ

pub record NoteKey : Type 0 where
  pub secret_key : List ℕ
  pub pubkey : List ℕ
  pub output_key : List ℕ

-- `Cx1::pubkey_x_only`
unfoldable pub cx1_x_only : Cx1 → List ℕ
cx1_x_only cx1 = x_of cx1.pubkey

unfoldable pub encode_cx1 : BechApi Checksum → Cx1 → Option Text
encode_cx1 bech cx1 = encode_bytes bech (codes "cx") (cx1.chain_code ++ cx1.pubkey)

unfoldable pub encode_legacy_cx1 : BechApi Checksum → LegacyCx1 → Option Text
encode_legacy_cx1 bech cx1 = encode_bytes bech (codes "cx") (cx1.pubkey_x_only ++ cx1.chain_code)

unfoldable pub decode_legacy_cx1 : BechApi Checksum → Text → Option LegacyCx1
decode_legacy_cx1 bech value =
    and_then (decode_fixed bech 64 (codes "cx") value)
      λ bytes. some (record { pubkey_x_only = take 32 bytes; chain_code = drop 32 bytes })

unfoldable pub legacy_branch_node : HmacApi → CurveApi → CashNode → Text → Result CashNode
legacy_branch_node = derive_cash_domain_node

abbrev pub unusable : ℕ → Error
unusable index = protocol (
    codes "note index "
    ++ (decimal index ++ codes " is unusable on this branch - use the next index"))

module _ (curve : CurveApi) where
  unfoldable pub decode_cx1 : BechApi Checksum → Text → Option Cx1
  decode_cx1 bech value = and_then (decode_fixed bech 65 (codes "cx") value) λ bytes.
      if curve.is_compressed (drop 32 bytes)
      then some (record { chain_code = take 32 bytes; pubkey = drop 32 bytes })
      else none

  unfoldable pub is_cx1 : BechApi Checksum → Text → Bool
  is_cx1 bech value = is_some (decode_cx1 bech value)

  unfoldable pub legacy_cx1_of : CashNode → Result LegacyCx1
  legacy_cx1_of node = do
    pubkey ← ok_or (curve.x_only_of node.private_key) invalid_key
    ok (record { pubkey_x_only = pubkey; chain_code = node.chain_code })

  -- `reduce_mod_n` is `reduce` of the curve.
  unfoldable pub tweak_for : CryptoApi → List ℕ → List ℕ → Option ℕ → ℕ → Result (List ℕ)
  tweak_for crypto pubkey_x_only chain_code purpose index = do
    let purposes : List (List ℕ) = elim purpose [ none ↦ [] | some p ↦ u32_bytes p ∷ [] ]
    let parts = pubkey_x_only ∷ chain_code ∷ (purposes ++ (u32_bytes index ∷ []))
    let t = curve.reduce (tagged_hash crypto (codes "LNURLcash/derive") parts)
    guard (curve.is_scalar t) (unusable index)
    ok t

  unfoldable pub legacy_derive_note_pubkey : CryptoApi → LegacyCx1 → Option ℕ → ℕ → Result (List ℕ)
  legacy_derive_note_pubkey crypto cx1 purpose index = do
    guard (curve.is_x_only cx1.pubkey_x_only)
        (protocol (codes "a branch key is not an x-only secp256k1 point"))
    tweak ← tweak_for crypto cx1.pubkey_x_only cx1.chain_code purpose index
    note ← ok_or (curve.add_tweak cx1.pubkey_x_only tweak) (unusable index)
    ok note.0

  unfoldable pub legacy_derive_note_secret_key :
      CryptoApi → CashNode → Option ℕ → ℕ → Result (List ℕ)
  legacy_derive_note_secret_key crypto node purpose index = do
    branch_x ←
        ok_or (curve.x_only_of node.private_key)
          (protocol (codes "a branch private key is a 32-byte scalar in [1, n)"))
    tweak ← tweak_for crypto branch_x node.chain_code purpose index
    ok_or (curve.secret_add_xonly_tweak node.private_key tweak) (unusable index)

module _ (hmac : HmacApi) (curve : CurveApi) where
  unfoldable pub derive_note_key : CashNode → NotePath → Result NoteKey
  derive_note_key service_root path = do
    levels ← indices path
    node ← descend hmac curve levels service_root
    pubkey ← cash_node_public_key hmac curve node
    ok (record { secret_key = node.private_key; pubkey = pubkey; output_key = x_of pubkey })

  unfoldable pub derive_share_node : CashNode → ℕ → ℕ → Result CashNode
  derive_share_node service_root account share = do
    account ← below_hardened account (codes "an account")
    node ← derive_cash_child hmac curve service_root (harden account)
    shares ← derive_cash_child hmac curve node chain_share
    number ← below_hardened share (codes "a share")
    derive_cash_child hmac curve shares (harden number)

  unfoldable pub cash_node_to_cx1 : CashNode → Result Cx1
  cash_node_to_cx1 node = do
    pubkey ← cash_node_public_key hmac curve node
    ok (record { chain_code = node.chain_code; pubkey = pubkey })

  unfoldable pub derive_note_pubkey : Cx1 → ℕ → Result (List ℕ)
  derive_note_pubkey cx1 index = do
    derived ← derive_cash_child_pub hmac curve cx1.pubkey cx1.chain_code index
    ok (x_of derived.0)

  -- A Nostr identity's tree.
  unfoldable pub derive_nostr_cash_seed : List ℕ → List ℕ
  derive_nostr_cash_seed secret_key =
      hmac.hmac256 secret_key (as_bytes (codes "LNURLcash/nostr-seed"))

  unfoldable pub derive_nostr_service_root :
      {Url : Type 0} → UrlApi Url → BechApi Checksum → List ℕ → Text → Result CashNode
  derive_nostr_service_root u bech secret_key domain = do
    root ← derive_cash_root hmac curve (derive_nostr_cash_seed secret_key)
    derive_service_root hmac curve u bech root domain
