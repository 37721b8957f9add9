-- ===== src/Deps.antt =====
-- What the crate calls and does not implement (serde_json, url, bech32, hex, sha2,
-- hmac, secp256k1, k256), and the interface of
-- src/spend.rs and src/recoverable.rs that the protocol uses.
use lnurlcash_core.Common.{ℕ, Bool, List, [], ◌∷◌, ◌++◌, Option, some, ◌≡◌}
use lnurlcash_core.Common.Text.{Text}

-- `serde_json::Value` through its accessors, and `serde_json::from_str`.
pub record JsonApi (Value : Type 0) : Type 0 where
  pub get : Value → Text → Option Value
  pub value_str : Value → Option Text
  pub value_u64 : Value → Option ℕ
  pub value_bool : Value → Option Bool
  pub value_array : Value → Option (List Value)
  pub is_null : Value → Bool
  pub is_boolean : Value → Bool
  pub is_string : Value → Bool
  pub from_str : Text → Option Value

-- `url::Url`. `clear_query` is `set_query(None)`, `append_pair` that of `query_pairs_mut`.
pub record UrlApi (Url : Type 0) : Type 0 where
  pub parse : Text → Option Url
  pub scheme : Url → Text
  pub host_str : Url → Option Text
  pub port : Url → Option ℕ
  pub path : Url → Text
  pub query_pairs : Url → List (Text × Text)
  pub clear_query : Url → Url
  pub append_pair : Url → Text → Text → Url
  pub to_string : Url → Text

-- What the documentation of `url` says of these: a serialised URL parses to itself, and the query
-- is a sequence of pairs to which one is appended, the rest of the URL left as it is.
pub record UrlLaws {Url : Type 0} (u : UrlApi Url) : Type 0 where
  pub parse-to_string : (x : Url) → u.parse (u.to_string x) ≡ some x
  pub query_pairs-clear_query : (x : Url) → u.query_pairs (u.clear_query x) ≡ []
  pub query_pairs-append_pair :
      (x : Url) (k v : Text) → u.query_pairs (u.append_pair x k v) ≡ u.query_pairs x ++ (k, v) ∷ []
  pub scheme-clear_query : (x : Url) → u.scheme (u.clear_query x) ≡ u.scheme x
  pub scheme-append_pair : (x : Url) (k v : Text) → u.scheme (u.append_pair x k v) ≡ u.scheme x
  pub host_str-clear_query : (x : Url) → u.host_str (u.clear_query x) ≡ u.host_str x
  pub host_str-append_pair :
      (x : Url) (k v : Text) → u.host_str (u.append_pair x k v) ≡ u.host_str x

-- `bech32`, for a checksum: `Hrp::parse` and `encode`, and `CheckedHrpstring` with its prefix in lower
-- case, whether its padding is a valid one, and its bytes.
pub record BechApi (Checksum : Type 0) : Type 0 where
  pub encode : Checksum → Text → List ℕ → Option Text
  pub checked : Checksum → Text → Option (Text × Bool × List ℕ)

-- `hex` and `sha2`
pub record CryptoApi : Type 0 where
  pub hex_decode : Text → Option (List ℕ)
  pub hex_encode : List ℕ → Text
  pub sha256 : List ℕ → List ℕ

-- `hmac`: HMAC-SHA512 and HMAC-SHA256 of a key and a message.
pub record HmacApi : Type 0 where
  pub hmac512 : List ℕ → List ℕ → List ℕ
  pub hmac256 : List ℕ → List ℕ → List ℕ

-- `secp256k1` and `k256`. Keys, scalars, points and signatures are their bytes; what does not parse
-- or does not exist is `false` or `none`.
pub record CurveApi : Type 0 where
  -- `XOnlyPublicKey::from_byte_array`, `VerifyingKey::from_slice`
  pub is_x_only : List ℕ → Bool
  -- `Scalar::from_be_bytes`
  pub is_scalar : List ℕ → Bool
  -- `PublicKey::from_byte_array_compressed`
  pub is_compressed : List ℕ → Bool
  -- `XOnlyPublicKey::add_tweak`, and whether the parity is odd
  pub add_tweak : List ℕ → List ℕ → Option (List ℕ × Bool)
  -- `PublicKey::add_exp_tweak`
  pub add_exp_tweak : List ℕ → List ℕ → Option (List ℕ)
  -- `SecretKey::from_secret_bytes`, then the compressed public key
  pub public_of : List ℕ → Option (List ℕ)
  -- `SecretKey::from_secret_bytes`, then the x-only public key
  pub x_only_of : List ℕ → Option (List ℕ)
  -- `SecretKey::add_tweak`, `Keypair::add_xonly_tweak`
  pub secret_add_tweak : List ℕ → List ℕ → Option (List ℕ)
  pub secret_add_xonly_tweak : List ℕ → List ℕ → Option (List ℕ)
  -- `Reduce::reduce` of the scalars
  pub reduce : List ℕ → List ℕ
  -- `SchnorrSignature::try_from`, `VerifyingKey::verify_raw` of a key, a message and a signature, and
  -- `SigningKey::sign_raw` of a key and a message, without auxiliary randomness
  pub is_schnorr : List ℕ → Bool
  pub verify_raw : List ℕ → List ℕ → List ℕ → Bool
  pub sign_raw : List ℕ → List ℕ → Option (List ℕ)
  -- `RecoveryId::try_from`, `RecoverableSignature::from_compact` and `recover_ecdsa` of a compact
  -- signature, a recovery id and a digest: the compressed public key
  pub recover_ecdsa : List ℕ → ℕ → List ℕ → Option (List ℕ)

pub data SpendVerdict : Type 0 where
  opens opens_legacy unevaluated : SpendVerdict
  fails : (reason : Text) → SpendVerdict

-- src/spend.rs and src/recoverable.rs. `names_note` says that `decode_note` returns a key,
-- `is_spend` that `decode_spend` returns a spend, and `check_spend` gives its verdict.
pub record SpendApi : Type 0 where
  pub note_id_of : Text → Option Text
  pub spend_domain_of : Text → Option Text
  pub check_spend : Text → Text → Option SpendVerdict
  pub names_note : Text → Bool
  pub is_spend : Text → Bool
  pub is_cp1 : Text → Bool
  pub cs1_amount : Text → Option ℕ

pub record Deps (Value Url : Type 0) : Type 0 where
  pub json : JsonApi Value
  pub url : UrlApi Url
  pub crypto : CryptoApi
  pub spend : SpendApi
