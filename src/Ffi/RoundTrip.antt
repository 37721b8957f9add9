-- ===== src/Ffi/RoundTrip.antt =====
-- The round trip of a script-path spend through `encode_cw1` and `decode_cw1` of src/ffi.rs.
use lnurlcash_core.Common.{
  ℕ, ◌^◌, ◌<◌, ◌≤◌, Bool, true, List, [], ◌∷◌, ◌++◌, some, ◌≡◌, refl, sym, ◌∙◌, subst, arith, ok,
  err, all, ltb, map, >>=-eq-ok, ok-injective,
}
use lnurlcash_core.Common.Text.{
  Text, codes, trim, lower, lower_char, is_ascii_uppercase, byte_len, text_eq_refl,
}
use lnurlcash_core.Deps.{CryptoApi, CurveApi, BechApi}
use lnurlcash_core.Errors.{Result}
use lnurlcash_core.LongBech32.{Checksum, bech32m, encode, decode}
use lnurlcash_core.Recoverable.Strings.{encode_bytes, decode_bytes}
use lnurlcash_core.Recoverable.Cw1.{
  Cw1, u32_bytes, item_bytes, items_bytes, cw1_payload, cw1_of_payload, output_key,
}
use lnurlcash_core.Recoverable.Cw1 as Cw1
use lnurlcash_core.Recoverable.Cw1.RoundTrip.{cw1_of_payload-cw1_payload}
use lnurlcash_core.Spend as Spend
use lnurlcash_core.Ffi.{convert}
use lnurlcash_core.Ffi.Bytes.{hex_bytes, hex_items, ffi_cw1, encode_cw1, decode_cw1}

abbrev is_byte : ℕ → Bool
is_byte b = ltb b 256

abbrev pub are_bytes : List ℕ → Bool
are_bytes = all is_byte

-- What the documentation of `hex` says: digits without spaces, that decode to what was encoded.
abbrev pub HexLaw : CryptoApi → Type 0
HexLaw crypto =
    (bytes : List ℕ)
    → are_bytes bytes ≡ true
    → crypto.hex_decode (trim (crypto.hex_encode bytes)) ≡ some bytes

-- What the documentation of `bech32` says of a prefix in lower case: a string without spaces, with
-- that prefix and those bytes.
abbrev pub BechLaw : BechApi Checksum → Type 0
BechLaw bech =
    (checksum : Checksum) (hrp : Text) (bytes : List ℕ) (string : Text)
    → lower hrp ≡ hrp
    → are_bytes bytes ≡ true
    → bech.encode checksum hrp bytes ≡ some string
    → (bech.checked checksum string ≡ some (hrp, true, bytes)) × (trim string ≡ string)

pub all-append {ℓ} :
    {A : Type ℓ} (p : A → Bool) (xs ys : List A)
    → all p xs ≡ true
    → all p ys ≡ true
    → all p (xs ++ ys) ≡ true
all-append p [] ys h k = k
all-append p (x ∷ xs) ys h k = ground (arith, all-append p xs ys)

u32_bytes-are_bytes : (n : ℕ) → are_bytes (u32_bytes n) ≡ true
u32_bytes-are_bytes n = ground arith

item_bytes-are_bytes :
    (item : List ℕ) {bytes : List ℕ}
    → are_bytes item ≡ true
    → item_bytes item ≡ ok bytes
    → are_bytes bytes ≡ true
unfolding item_bytes
item_bytes-are_bytes item h e = ground arith

items_bytes-are_bytes :
    (items : List (List ℕ)) {bytes : List ℕ}
    → all are_bytes items ≡ true
    → items_bytes items ≡ ok bytes
    → are_bytes bytes ≡ true
unfolding items_bytes
items_bytes-are_bytes [] h e = subst (λ (t : List ℕ). are_bytes t ≡ true) (ok-injective e) refl
items_bytes-are_bytes (item ∷ items) h e =
    let (first, made, e1) = >>=-eq-ok (item_bytes item) _ e in
    let (rest, others, e2) = >>=-eq-ok (items_bytes items) _ e1 in
    subst (λ (t : List ℕ). are_bytes t ≡ true) (ok-injective e2)
      (all-append is_byte first rest (item_bytes-are_bytes item (ground arith) made)
        (items_bytes-are_bytes items (ground arith) others))

cw1_payload-are_bytes :
    (cw1 : Cw1) {payload : List ℕ}
    → all are_bytes (cw1.script ∷ cw1.control_block ∷ cw1.witness) ≡ true
    → cw1_payload cw1 ≡ ok payload
    → are_bytes payload ≡ true
unfolding cw1_payload
cw1_payload-are_bytes cw1 h e =
    let (items, made, e1) = >>=-eq-ok (items_bytes _) _ e in
    subst (λ (t : List ℕ). are_bytes t ≡ true) (ok-injective e1)
      (all-append is_byte (u32_bytes cw1.locktime) (u32_bytes cw1.sequence ++ items)
        (u32_bytes-are_bytes cw1.locktime)
        (all-append is_byte (u32_bytes cw1.sequence) items (u32_bytes-are_bytes cw1.sequence)
          (items_bytes-are_bytes _ h made)))

-- A string of the prefix and within the limit reads back.
decode_bytes-encode_bytes :
    (bech : BechApi Checksum)
    → BechLaw bech
    → (hrp : Text) (bytes : List ℕ) (string : Text) → lower hrp ≡ hrp
    → are_bytes bytes ≡ true
    → encode_bytes bech hrp bytes ≡ some string
    → byte_len string ≤ 8192
    → decode_bytes bech hrp string ≡ some bytes
unfolding encode_bytes decode_bytes encode decode
decode_bytes-encode_bytes bech law hrp bytes string low small e short =
    let (reads, trimmed) = law bech32m hrp bytes string low small e in
    rw (trimmed, reads, text_eq_refl hrp) (ground arith)

low_prefix : lower (codes "cw") ≡ codes "cw"
unfolding lower lower_char is_ascii_uppercase codes
low_prefix = refl

convert-eq-ok {ℓ} :
    {A : Type ℓ} (r : Result A) {value : A} → convert (λ a. a) r ≡ ok value → r ≡ ok value
convert-eq-ok (ok a) h = cc h
convert-eq-ok (err e) h = cc h

module _ (crypto : CryptoApi) (hex : HexLaw crypto) where
  hex_bytes-encoded :
      (bytes : List ℕ) (what : Text)
      → are_bytes bytes ≡ true
      → hex_bytes crypto (crypto.hex_encode bytes) what ≡ ok bytes
  unfolding hex_bytes
  hex_bytes-encoded bytes what h = rw (hex bytes h) refl

  hex_items-encoded :
      (items : List (List ℕ))
      → all are_bytes items ≡ true
      → hex_items crypto (map crypto.hex_encode items) ≡ ok items
  unfolding hex_items
  hex_items-encoded [] h = refl
  hex_items-encoded (item ∷ items) h =
      rw (hex_bytes-encoded item _ (ground arith), hex_items-encoded items (ground arith)) refl

  module _ (curve : CurveApi) (bech : BechApi Checksum) (law : BechLaw bech) where
    pub encode_cw1-encoded :
        (cw1 : Cw1)
        → all are_bytes (cw1.script ∷ cw1.control_block ∷ cw1.witness) ≡ true
        → encode_cw1 crypto curve bech (ffi_cw1 crypto cw1)
          ≡ convert (λ s. s) (Cw1.encode_cw1 (Spend.output_key_of crypto curve) bech cw1)
    unfolding encode_cw1
    encode_cw1-encoded cw1 h =
        rw
          (
            hex_bytes-encoded cw1.script _ (ground arith),
            hex_bytes-encoded cw1.control_block _ (ground arith),
            hex_items-encoded cw1.witness (ground arith),
          )
          refl

    -- A script-path spend of bytes, whose times are a `u32` and whose control block commits to a key,
    -- that is encoded from hex as a string within the limit decodes from that string to the same hex.
    pub decode_cw1-encode_cw1 :
        (cw1 : Cw1) (key : List ℕ) (string : Text)
        → all are_bytes (cw1.script ∷ cw1.control_block ∷ cw1.witness) ≡ true
        → cw1.locktime < 2 ^ 32
        → cw1.sequence < 2 ^ 32
        → Spend.output_key_of crypto curve cw1.script cw1.control_block ≡ some key
        → encode_cw1 crypto curve bech (ffi_cw1 crypto cw1) ≡ ok (some string)
        → byte_len string ≤ 8192
        → decode_cw1 crypto curve bech string ≡ some (ffi_cw1 crypto cw1)
    unfolding decode_cw1 Cw1.encode_cw1 Cw1.decode_cw1 output_key
    decode_cw1-encode_cw1 cw1 key string small locktime sequence commits encoded short =
        let written = convert-eq-ok _ (sym (encode_cw1-encoded cw1 small) ∙ encoded) in
        let (payload, paid, e) = >>=-eq-ok (cw1_payload cw1) _ written in
        let reads =
          decode_bytes-encode_bytes bech law (codes "cw") payload string low_prefix
            (cw1_payload-are_bytes cw1 small paid) (ok-injective e) short in
        rw
          (
            reads,
            cw1_of_payload-cw1_payload (Spend.output_key_of crypto curve) cw1 payload key locktime
                sequence commits paid,
          )
          refl
