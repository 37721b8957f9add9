-- ===== src/Secrets.antt =====
-- src/secrets.rs: the shape of a note secret, its hash, and the superseded derivation.
use lnurlcash_core.Common.{ℕ, List, ◌++◌, Bool, ◌&&◌, ◌==◌, all, map_option, ok_or}
use lnurlcash_core.Common.Text.{Text, codes, byte_len, trim, is_ascii_hexdigit}
use lnurlcash_core.Common.Utf8.{as_bytes}
use lnurlcash_core.Common.Decimal.{decimal}
use lnurlcash_core.Errors.{Result, protocol}
use lnurlcash_core.Deps.{CryptoApi, HmacApi}

unfoldable pub is_preimage : Text → Bool
is_preimage value =
    let trimmed = trim value in byte_len trimmed == 64 && all is_ascii_hexdigit trimmed

unfoldable pub hash_k1 : CryptoApi → Text → Result Text
hash_k1 crypto k1 =
    ok_or (map_option (λ bytes. crypto.hex_encode (crypto.sha256 bytes)) (crypto.hex_decode k1))
      (protocol (codes "k1 is not hex"))

abbrev pub note_derivation_domain : List ℕ
note_derivation_domain = as_bytes (codes "lnurlcash-note-v1")

unfoldable pub derive_note_root : HmacApi → List ℕ → List ℕ
derive_note_root hmac seed = hmac.hmac256 note_derivation_domain seed

unfoldable pub derive_note_secret : HmacApi → CryptoApi → List ℕ → Text → ℕ → Text
derive_note_secret hmac crypto root host index =
    crypto.hex_encode (hmac.hmac256 root (as_bytes (host ++ (codes ":" ++ decimal index))))
