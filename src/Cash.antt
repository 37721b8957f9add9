-- ===== src/Cash.antt =====
-- src/cash.rs: the walk from a wallet's seed down to the root of one service.
pub mod Watch
use lnurlcash_core.Common.{
  ℕ, zero, suc, ◌+◌, ◌&&◌, List, [], ◌∷◌, ◌++◌, leb, ltb, ◌==◌, if◌then◌else◌, length, take, drop,
  is_some, ok, err, ok_or, ◌>>=◌, ◌>>◌, guard,
}
use lnurlcash_core.Common.Text.{Text, codes, trim, lower}
use lnurlcash_core.Common.Utf8.{as_bytes}
use lnurlcash_core.Common.Decimal.{decimal}
use lnurlcash_core.Errors.{Error, Result, protocol}
use lnurlcash_core.Deps.{CryptoApi, HmacApi, CurveApi, UrlApi, BechApi}
use lnurlcash_core.LongBech32.{Checksum}
use lnurlcash_core.Recoverable.Cw1.{u32_bytes, u32_of}
use lnurlcash_core.Spend.Sighash.{spend_domain_of}

abbrev pub hardened : ℕ
hardened = 0x8000_0000

abbrev pub cash_purpose : ℕ
cash_purpose = 139

pub record CashNode : Type 0 where
  pub private_key : List ℕ
  pub chain_code : List ℕ

abbrev pub out_of_range : ℕ → Error
out_of_range index =
    protocol (codes "BIP-32 derivation at " ++ (decimal index ++ codes " is out of range"))

abbrev pub invalid_key : Error
invalid_key = protocol (codes "cash node holds an invalid private key")

-- Big-endian words of 32 bits, so many of them.
unfoldable pub words : ℕ → List ℕ → List ℕ
words (suc n) (a ∷ b ∷ c ∷ d ∷ bytes) = u32_of a b c d ∷ words n bytes
words _ _ = []

module _ (hmac : HmacApi) (curve : CurveApi) where
  -- `data`: 37 bytes, the private key behind a zero or the public key, then the index.
  abbrev pub child_data : List ℕ → List ℕ → ℕ → List ℕ
  child_data private_key public_key index =
      (if leb hardened index then 0x00 ∷ private_key else public_key) ++ u32_bytes index

  unfoldable pub derive_cash_child : CashNode → ℕ → Result CashNode
  derive_cash_child node index = do
    parent ← ok_or (curve.public_of node.private_key) invalid_key
    let material = hmac.hmac512 node.chain_code (child_data node.private_key parent index)
    guard (curve.is_scalar (take 32 material)) (out_of_range index)
    child ← ok_or (curve.secret_add_tweak node.private_key (take 32 material)) (out_of_range index)
    ok (record { private_key = child; chain_code = drop 32 material })

  unfoldable pub derive_cash_child_pub : List ℕ → List ℕ → ℕ → Result (List ℕ × List ℕ)
  derive_cash_child_pub pubkey chain_code index = do
    guard (ltb index hardened) (
        protocol
          (codes "a public key has no hardened child, and " ++ (decimal index ++ codes " is one")))
    guard (curve.is_compressed pubkey) (protocol (codes "not a compressed secp256k1 point"))
    let material = hmac.hmac512 chain_code (pubkey ++ u32_bytes index)
    guard (curve.is_scalar (take 32 material)) (out_of_range index)
    child ← ok_or (curve.add_exp_tweak pubkey (take 32 material)) (out_of_range index)
    ok (child, drop 32 material)

  unfoldable pub cash_node_public_key : CashNode → Result (List ℕ)
  cash_node_public_key node = ok_or (curve.public_of node.private_key) invalid_key

  unfoldable pub derive_cash_master : List ℕ → Result CashNode
  derive_cash_master seed = do
    guard (leb 16 (length seed) && leb (length seed) 64)
        (protocol (codes "a BIP-32 seed must be 16 to 64 bytes, not " ++ decimal (length seed)))
    let material = hmac.hmac512 (as_bytes (codes "Bitcoin seed")) seed
    guard (is_some (curve.public_of (take 32 material)))
        (protocol (codes "this seed does not produce a valid BIP-32 master key"))
    ok (record { private_key = take 32 material; chain_code = drop 32 material })

  unfoldable pub derive_cash_root : List ℕ → Result CashNode
  derive_cash_root seed = do
    master ← derive_cash_master seed
    derive_cash_child master (cash_purpose + hardened)

  unfoldable pub cash_domain_indices : CashNode → Text → Result (List ℕ)
  cash_domain_indices root host = do
    hashing ← derive_cash_child root 0
    ok (words 4 (hmac.hmac256 hashing.private_key (as_bytes host)))

  -- The loop of `derive_cash_domain_node` and of `derive_note_key`.
  unfoldable pub descend : List ℕ → CashNode → Result CashNode
  descend [] node = ok node
  descend (index ∷ indices) node = do child ← derive_cash_child node index; descend indices child

  unfoldable pub derive_cash_domain_node : CashNode → Text → Result CashNode
  derive_cash_domain_node root host = do
    indices ← cash_domain_indices root host
    descend indices root

  unfoldable pub derive_service_root :
      {Url : Type 0} → UrlApi Url → BechApi Checksum → CashNode → Text → Result CashNode
  derive_service_root u bech root domain = do
    host ←
        ok_or (spend_domain_of u bech domain)
          (protocol (codes "a SERVICE root is derived for a domain"))
    derive_cash_domain_node root host

  -- A string of hex digits has the same ASCII and Unicode lower case.
  unfoldable pub cash_node_to_hex : CryptoApi → CashNode → Text
  cash_node_to_hex crypto node =
      crypto.hex_encode node.private_key ++ crypto.hex_encode node.chain_code

  unfoldable pub cash_node_from_hex : CryptoApi → Text → Result CashNode
  cash_node_from_hex crypto value = do
    bytes ←
        ok_or (crypto.hex_decode (lower (trim value)))
          (protocol (codes "a cash node is 64 bytes of hex"))
    guard (length bytes == 64) (
        protocol (
          codes "a cash node is 64 bytes - a 32-byte key and a 32-byte chain code - not "
          ++ decimal (length bytes)))
    guard (is_some (curve.public_of (take 32 bytes)))
        (protocol (codes "that cash node holds an invalid private key"))
    ok (record { private_key = take 32 bytes; chain_code = drop 32 bytes })
