-- ===== src/Ffi/Keys.antt =====
-- The keys of src/ffi.rs: nodes and keys cross as hex, and the bech32m strings as themselves. A string
-- that `expect` would not give is `none`.
use lnurlcash_core.Common.{
  ℕ, Bool, List, Option, ok, ok_or, ◌>>=◌, ◌>>◌, guard, ◌==◌, length, and_then, map_option,
}
use lnurlcash_core.Common.Text.{Text, codes, trim}
use lnurlcash_core.Deps.{CryptoApi, HmacApi, CurveApi, UrlApi, BechApi}
use lnurlcash_core.LongBech32.{Checksum}
use lnurlcash_core.Cash as Cash
use lnurlcash_core.Secrets as Secrets
use lnurlcash_core.Recoverable.Keys as Keys
use lnurlcash_core.Recoverable.Ownership as Ownership
use lnurlcash_core.Recoverable.Path as Paths
use lnurlcash_core.Ffi.{FfiResult, protocol, convert}
use lnurlcash_core.Ffi.Bytes.{hex_bytes, hex_array}

pub data FfiNotePath : Type 0 where
  wallet change : (account index : ℕ) → FfiNotePath
  share : (account number index : ℕ) → FfiNotePath

unfoldable path_of : FfiNotePath → Paths.NotePath
path_of (wallet account index) = Paths.wallet account index
path_of (change account index) = Paths.change account index
path_of (share account number index) = Paths.share account number index

pub record FfiNoteKey : Type 0 where
  pub secret_key : Text
  pub pubkey : Text
  pub output_key : Text

pub record FfiNoteOwner : Type 0 where
  pub pubkey_x_only : Text
  pub legacy : Bool

module _ (hmac : HmacApi) (crypto : CryptoApi) (curve : CurveApi) where
  abbrev node_from : Text → FfiResult Cash.CashNode
  node_from value = convert (λ node. node) (Cash.cash_node_from_hex hmac curve crypto value)

  abbrev to_node : Cash.CashNode → Text
  to_node = Cash.cash_node_to_hex hmac curve crypto

  unfoldable derive_cash_root : Text → FfiResult Text
  unfolding hex_bytes
  derive_cash_root seed_hex = do
    seed ← hex_bytes crypto seed_hex (codes "a seed")
    convert to_node (Cash.derive_cash_root hmac curve seed)

  unfoldable derive_cash_master : Text → FfiResult Text
  unfolding hex_bytes
  derive_cash_master seed_hex = do
    seed ← hex_bytes crypto seed_hex (codes "a seed")
    convert to_node (Cash.derive_cash_master hmac curve seed)

  unfoldable derive_cash_domain_node : Text → Text → FfiResult Text
  derive_cash_domain_node root_hex host = do
    root ← node_from root_hex
    convert to_node (Cash.derive_cash_domain_node hmac curve root host)

  unfoldable cash_domain_indices : Text → Text → FfiResult (List ℕ)
  cash_domain_indices root_hex host = do
    root ← node_from root_hex
    convert (λ indices. indices) (Cash.cash_domain_indices hmac curve root host)

  unfoldable derive_cash_child : Text → ℕ → FfiResult Text
  derive_cash_child node_hex index = do
    node ← node_from node_hex
    convert to_node (Cash.derive_cash_child hmac curve node index)

  unfoldable derive_note_root : Text → FfiResult Text
  unfolding hex_bytes
  derive_note_root seed_hex = do
    seed ← hex_bytes crypto seed_hex (codes "a seed")
    ok (crypto.hex_encode (Secrets.derive_note_root hmac seed))

  unfoldable derive_note_secret : Text → Text → ℕ → FfiResult Text
  unfolding hex_bytes
  derive_note_secret root_hex host index = do
    root ← hex_bytes crypto root_hex (codes "a root")
    guard (length root == 32) (protocol (codes "a legacy root is 32 bytes"))
    ok (Secrets.derive_note_secret hmac crypto root host index)

  unfoldable derive_note_key : Text → FfiNotePath → FfiResult FfiNoteKey
  unfolding path_of
  derive_note_key service_root_hex path = do
    root ← node_from service_root_hex
    convert
        (λ (key : Keys.NoteKey). record {
          secret_key = crypto.hex_encode key.secret_key;
          pubkey = crypto.hex_encode key.pubkey;
          output_key = crypto.hex_encode key.output_key;
        })
        (Keys.derive_note_key hmac curve root (path_of path))

  unfoldable derive_share_node : Text → ℕ → ℕ → FfiResult Text
  derive_share_node service_root_hex account number = do
    root ← node_from service_root_hex
    convert to_node (Keys.derive_share_node hmac curve root account number)

  unfoldable derive_nostr_cash_seed : Text → FfiResult Text
  unfolding hex_array
  derive_nostr_cash_seed secret_key_hex = do
    secret_key ← hex_array crypto 32 secret_key_hex (codes "a Nostr secret key")
    ok (crypto.hex_encode (Keys.derive_nostr_cash_seed hmac curve secret_key))

  unfoldable legacy_branch_node : Text → Text → FfiResult Text
  legacy_branch_node root_hex host = do
    root ← node_from root_hex
    convert to_node (Keys.legacy_branch_node hmac curve root host)

  module _ (bech : BechApi Checksum) where
    unfoldable derive_note_pubkey : Text → ℕ → FfiResult Text
    derive_note_pubkey cx1 index = do
      decoded ← ok_or (Keys.decode_cx1 curve bech cx1) (protocol (codes "that is not a cx1"))
      convert crypto.hex_encode (Keys.derive_note_pubkey hmac curve decoded index)

    unfoldable legacy_derive_note_pubkey : Text → Option ℕ → ℕ → FfiResult Text
    legacy_derive_note_pubkey legacy_cx1 purpose index = do
      cx1 ←
          ok_or (Keys.decode_legacy_cx1 bech legacy_cx1)
            (protocol (codes "that is not a legacy cx1"))
      convert crypto.hex_encode (Keys.legacy_derive_note_pubkey curve crypto cx1 purpose index)

    unfoldable legacy_derive_note_secret_key : Text → Option ℕ → ℕ → FfiResult Text
    legacy_derive_note_secret_key node_hex purpose index = do
      node ← node_from node_hex
      convert crypto.hex_encode (Keys.legacy_derive_note_secret_key curve crypto node purpose index)

    unfoldable cash_node_to_cx1 : Text → FfiResult (Option Text)
    cash_node_to_cx1 node_hex = do
      node ← node_from node_hex
      convert (Keys.encode_cx1 bech) (Keys.cash_node_to_cx1 hmac curve node)

    unfoldable legacy_cx1_of : Text → FfiResult (Option Text)
    legacy_cx1_of node_hex = do
      node ← node_from node_hex
      convert (Keys.encode_legacy_cx1 bech) (Keys.legacy_cx1_of curve node)

    -- Round-tripped, so a key that is no point is refused.
    unfoldable encode_cx1 : Text → Text → FfiResult (Option Text)
    unfolding hex_array
    encode_cx1 chain_code_hex pubkey_hex = do
      chain_code ← hex_array crypto 32 chain_code_hex (codes "a chain code")
      pubkey ← hex_array crypto 33 pubkey_hex (codes "a compressed pubkey")
      cx1 ←
          ok_or
            (and_then (Keys.encode_cx1 bech (record { chain_code = chain_code; pubkey = pubkey }))
              (Keys.decode_cx1 curve bech))
            (protocol (codes "not a compressed secp256k1 point"))
      ok (Keys.encode_cx1 bech cx1)

    module _ {Url : Type 0} (u : UrlApi Url) where
      unfoldable derive_service_root : Text → Text → FfiResult Text
      derive_service_root root_hex domain = do
        root ← node_from root_hex
        convert to_node (Cash.derive_service_root hmac curve u bech root domain)

      unfoldable derive_nostr_service_root : Text → Text → FfiResult Text
      unfolding hex_array
      derive_nostr_service_root secret_key_hex domain = do
        secret_key ← hex_array crypto 32 secret_key_hex (codes "a Nostr secret key")
        convert to_node (Keys.derive_nostr_service_root hmac curve u bech secret_key domain)

      unfoldable sign_note_ownership : Text → Text → FfiResult Text
      unfolding hex_array
      sign_note_ownership secret_key_hex domain = do
        secret_key ← hex_array crypto 32 secret_key_hex (codes "a note secret key")
        convert crypto.hex_encode
            (Ownership.sign_note_ownership crypto curve u bech secret_key domain)

      unfoldable recover_note_ownership_pubkey : Text → Text → Option FfiNoteOwner
      recover_note_ownership_pubkey signature_hex domain =
          and_then (crypto.hex_decode (trim signature_hex)) λ signature.
            map_option
              (λ (owner : Ownership.NoteOwner). record {
                pubkey_x_only = crypto.hex_encode owner.pubkey_x_only;
                legacy = owner.legacy;
              })
              (Ownership.recover_note_ownership_pubkey crypto curve u bech signature domain)
