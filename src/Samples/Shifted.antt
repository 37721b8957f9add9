-- ===== src/Samples/Shifted.antt =====
-- A hex and a bech32 for the examples that keep the laws of the two: each byte is one character far from
-- the spaces, behind the prefix.
use lnurlcash_core.Common.{
  ℕ, ◌+◌, ◌-◌, Bool, true, not, List, [], ◌∷◌, some, none, ◌≡◌, refl, sym, ap, ◌∙◌, subst, arith,
  all, map_option, if◌then◌else◌,
}
use lnurlcash_core.Common.Text.{
  Text, codes, trim, trim_start, trim_end, drop_while, is_whitespace, text_eq, text_eq_iff,
  strip_prefix,
}
use mathlib.Core.List.{reverse, reverse-reverse, reverse-append}
use lnurlcash_core.Deps.{CryptoApi, BechApi}
use lnurlcash_core.LongBech32.{Checksum}
use lnurlcash_core.Ffi.RoundTrip.{all-append, HexLaw, BechLaw}
use lnurlcash_core.Samples.Curve.{hashing}

abbrev pub shifted : List ℕ → Text
shifted [] = []
shifted (b ∷ bytes) = (b + 1_000_000) ∷ shifted bytes

abbrev unshifted : Text → List ℕ
unshifted [] = []
unshifted (c ∷ s) = (c - 1_000_000) ∷ unshifted s

unshifted-shifted : (bytes : List ℕ) → unshifted (shifted bytes) ≡ bytes
unshifted-shifted [] = refl
unshifted-shifted (b ∷ bytes) = ground (arith, unshifted-shifted bytes)

abbrev is_solid : ℕ → Bool
is_solid c = not (is_whitespace c)

shifted-is_solid : (bytes : List ℕ) → all is_solid (shifted bytes) ≡ true
unfolding is_whitespace
shifted-is_solid [] = refl
shifted-is_solid (b ∷ bytes) = ground (arith, shifted-is_solid bytes)

drop_while-solid : (s : Text) → all is_solid s ≡ true → drop_while is_whitespace s ≡ s
unfolding drop_while
drop_while-solid [] h = refl
drop_while-solid (c ∷ s) h = ground arith

all-reverse : (s : Text) → all is_solid s ≡ true → all is_solid (reverse s) ≡ true
all-reverse [] h = refl
all-reverse (c ∷ s) h =
    subst (λ (t : Text). all is_solid t ≡ true) (sym (reverse-append (c ∷ []) s))
      (all-append is_solid (reverse s) (c ∷ []) (all-reverse s (ground arith)) (ground arith))

trim-solid : (s : Text) → all is_solid s ≡ true → trim s ≡ s
unfolding trim trim_start trim_end
trim-solid s h =
    rw (drop_while-solid s h, drop_while-solid (reverse s) (all-reverse s h)) (reverse-reverse s)

abbrev pub plain_hex : CryptoApi
plain_hex = record {
  hex_decode = λ s. some (unshifted s);
  hex_encode = shifted;
  sha256 = hashing.sha256;
}

pub plain_hex-HexLaw : HexLaw plain_hex
plain_hex-HexLaw bytes h =
    ap (λ (s : Text). some (unshifted s)) (trim-solid (shifted bytes) (shifted-is_solid bytes))
    ∙ ap some (unshifted-shifted bytes)

abbrev pub shifted_bech : BechApi Checksum
shifted_bech = record {
  encode = λ checksum hrp bytes.
      if text_eq hrp (codes "cw") then some (99 ∷ 119 ∷ 49 ∷ shifted bytes) else none;
  checked = λ checksum s.
      map_option (λ (rest : Text). (codes "cw", true, unshifted rest))
        (strip_prefix (99 ∷ 119 ∷ 49 ∷ []) s);
}

string-is_solid : (bytes : List ℕ) → all is_solid (99 ∷ 119 ∷ 49 ∷ shifted bytes) ≡ true
unfolding is_whitespace
string-is_solid bytes = shifted-is_solid bytes

encoded_parts :
    (checksum : Checksum) (hrp : Text) (bytes : List ℕ) (string : Text)
    → shifted_bech.encode checksum hrp bytes ≡ some string
    → (text_eq hrp (codes "cw") ≡ true) × (99 ∷ 119 ∷ 49 ∷ shifted bytes ≡ string)
encoded_parts checksum hrp bytes string e = ground arith

pub shifted_bech-BechLaw : BechLaw shifted_bech
unfolding strip_prefix
shifted_bech-BechLaw checksum hrp bytes string low small e =
    let (named, same) = encoded_parts checksum hrp bytes string e in
    subst (λ (s : Text). (shifted_bech.checked checksum s ≡ some (hrp, true, bytes)) × (trim s ≡ s))
      same
      (
        ap (λ (t : List ℕ). some (codes "cw", true, t)) (unshifted-shifted bytes)
            ∙ ap (λ (h : Text). some (h, true, bytes))
                (sym ((text_eq_iff hrp (codes "cw")).0 named)),
        trim-solid _ (string-is_solid bytes),
      )
