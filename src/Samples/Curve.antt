-- ===== src/Samples/Curve.antt =====
-- A hash, a curve and a checksum for the examples: the hash is the first 32 bytes, a public key is its
-- secret key behind the sign byte 2, a tweak is appended, and a signature recovers to the key that its
-- first 32 bytes stand for.
use lnurlcash_core.Common.{
  ℕ, zero, suc, ◌+◌, ◌*◌, ◌/◌, ◌%◌, ◌-◌, true, List, [], ◌∷◌, ◌++◌, Option, none, some, ◌≡◌, refl,
  sym, ap, ◌∙◌, ltb, if◌then◌else◌, length, take, map_option, some-injective,
}
use lnurlcash_core.Common.Text.{Text, text_eq, split_last}
use lnurlcash_core.Deps.{CryptoApi, HmacApi, CurveApi, BechApi}
use lnurlcash_core.LongBech32.{Checksum}
use lnurlcash_core.Cash.Watch.{CurveLaws}

abbrev padded : ℕ → List ℕ → List ℕ
padded zero bytes = []
padded (suc n) [] = 0 ∷ padded n []
padded (suc n) (b ∷ bytes) = b ∷ padded n bytes

length-padded : (n : ℕ) (bytes : List ℕ) → length (padded n bytes) ≡ n
length-padded zero bytes = refl
length-padded (suc n) [] = ap suc (length-padded n [])
length-padded (suc n) (b ∷ bytes) = ap suc (length-padded n bytes)

abbrev digit_of : ℕ → ℕ
digit_of n = if ltb n 10 then n + 48 else n + 87

abbrev value_of : ℕ → ℕ
value_of c = if ltb c 58 then c - 48 else if ltb c 71 then c - 55 else c - 87

abbrev from_hex : Text → Option (List ℕ)
from_hex [] = some []
from_hex (a ∷ []) = none
from_hex (a ∷ b ∷ s) =
    map_option (λ (bytes : List ℕ). (value_of a * 16 + value_of b) ∷ bytes) (from_hex s)

abbrev to_hex : List ℕ → Text
to_hex [] = []
to_hex (b ∷ bytes) = digit_of (b / 16) ∷ digit_of (b % 16) ∷ to_hex bytes

abbrev pub hashing : CryptoApi
hashing = record { hex_decode = from_hex; hex_encode = to_hex; sha256 = padded 32 }

pub hashing-sized : (bytes : List ℕ) → length (hashing.sha256 bytes) ≡ 32
hashing-sized = length-padded 32

abbrev pub appending : HmacApi
appending = record {
  hmac512 = λ key message. padded 64 (key ++ message);
  hmac256 = λ key message. padded 32 (key ++ message);
}

abbrev pub curve : CurveApi
curve = record {
  is_x_only = λ key. true;
  is_scalar = λ t. true;
  is_compressed = λ point. true;
  add_tweak = λ key tweak. some (key, true);
  add_exp_tweak = λ point tweak. some (point ++ tweak);
  public_of = λ key. some (2 ∷ key);
  x_only_of = λ key. some key;
  secret_add_tweak = λ key tweak. some (key ++ tweak);
  secret_add_xonly_tweak = λ key tweak. some (key ++ tweak);
  reduce = λ t. t;
  is_schnorr = λ signature. true;
  verify_raw = λ key message signature. text_eq (take 32 signature) message;
  sign_raw = λ key message. some (message ++ message);
  recover_ecdsa = λ compact recovery digest. some (2 ∷ take 32 compact);
}

tweak-some :
    (key tweak : List ℕ) {point child : List ℕ}
    → ◌≡◌ {A = Option (List ℕ)} (some (2 ∷ key)) (some point)
    → ◌≡◌ {A = Option (List ℕ)} (some (key ++ tweak)) (some child)
    → (below : List ℕ) × (◌≡◌ {A = Option (List ℕ)} (some (2 ∷ child)) (some below))
      × (◌≡◌ {A = Option (List ℕ)} (some (point ++ tweak)) (some below))
tweak-some key tweak {point} {child} shown added = (
  2 ∷ child,
  refl,
  ap (λ (p : List ℕ). some (p ++ tweak)) (sym (some-injective shown))
      ∙ ap (λ (c : List ℕ). some (2 ∷ c)) (some-injective added),
)

pub curve-CurveLaws : CurveLaws curve
curve-CurveLaws = record {
  public_of-is_compressed = λ key {point} shown. refl;
  tweak-some = tweak-some;
  tweak-none = λ key tweak {point} shown failed. cc failed;
}

-- The prefix, a 1, and the bytes as they are.
abbrev pub plain_bech : BechApi Checksum
plain_bech = record {
  encode = λ checksum hrp bytes. some (hrp ++ 49 ∷ bytes);
  checked = λ checksum value.
      map_option (λ (parts : Text × Text). (parts.0, true, parts.1)) (split_last 49 value);
}
