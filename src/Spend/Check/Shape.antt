-- ===== src/Spend/Check/Shape.antt =====
-- What the spends that `decode_spend` of src/spend.rs returns look like.
use lnurlcash_core.Common.{
  ℕ, zero, suc, Bool, true, false, List, [], ◌∷◌, ◌++◌, Option, none, some, ◌≡◌, refl, sym, ap, ◌∙◌,
  subst, arith, if◌then◌else◌, length, length-append, and_then, map_option, and_then-eq-some,
  some-injective, Option-cases, inl, inr,
}
use lnurlcash_core.Common.Text.{Text, trim}
use lnurlcash_core.Deps.{CryptoApi, CurveApi, BechApi}
use lnurlcash_core.LongBech32.{Checksum}
use lnurlcash_core.Recoverable.Cw1.{Cw1, take_bytes, decode_cw1}
use lnurlcash_core.Recoverable.Strings.{DecodedCk1, current, legacy, decode_ck1}
use lnurlcash_core.Spend.{is_x_only_point, output_key_of, bearer_cw1}
use lnurlcash_core.Spend.Check.{
  Spend, key_path, legacy_key_path, script_path, hex32, spend_of_ck1, spend_of_cw1, decode_spend,
}

take_bytes-eq-some :
    (n : ℕ) (bytes : List ℕ) {parts : List ℕ × List ℕ}
    → take_bytes n bytes ≡ some parts
    → (length parts.0 ≡ n) × (parts.0 ++ parts.1 ≡ bytes)
unfolding take_bytes
take_bytes-eq-some zero bytes {parts} h =
    subst (λ (p : List ℕ × List ℕ). (length p.0 ≡ 0) × (p.0 ++ p.1 ≡ bytes)) (some-injective h)
      (refl, refl)
take_bytes-eq-some (suc n) [] h = cc
take_bytes-eq-some (suc n) (b ∷ bytes) {parts} h = elim (Option-cases (take_bytes n bytes)) [
  | inl cut ↦ cc (cut, h)
  | inr (rest, read) ↦
      let (size, whole) = take_bytes-eq-some n bytes read in
      let same : (b ∷ rest.0, rest.1) ≡ parts = some-injective (sym (rw read refl) ∙ h) in
      subst (λ (p : List ℕ × List ℕ). (length p.0 ≡ suc n) × (p.0 ++ p.1 ≡ b ∷ bytes)) same
        (ap suc size, ap (λ t. b ∷ t) whole)
]

module _ (crypto : CryptoApi) (curve : CurveApi) (bech : BechApi Checksum) where
  -- The payload of a `ck1` that decodes.
  abbrev pub IsShaped : Spend → Type 0
  IsShaped (key_path key signature) =
      (length key ≡ 32) × (length signature ≡ 64) × (curve.is_x_only key ≡ true)
  IsShaped _ = Unit {0}

  decode_ck1-length :
      (value : Text) {payload : List ℕ}
      → decode_ck1 bech value ≡ some (current payload)
      → length payload ≡ 96
  unfolding decode_ck1
  decode_ck1-length value {payload} h = ground arith

  script_path-IsShaped :
      (cw1 : Cw1) (found : Option (List ℕ)) {spend : Spend}
      → map_option (λ (key : List ℕ). script_path key cw1) found ≡ some spend
      → IsShaped spend
  script_path-IsShaped cw1 none h = cc
  script_path-IsShaped cw1 (some key) h = subst IsShaped (some-injective h) tt

  legacy-IsShaped :
      (found : Option (List ℕ)) {spend : Spend}
      → map_option legacy_key_path found ≡ some spend
      → IsShaped spend
  legacy-IsShaped none h = cc
  legacy-IsShaped (some key) h = subst IsShaped (some-injective h) tt

  key_path-IsShaped :
      (key signature : List ℕ) (point : Bool) {spend : Spend}
      → length key ≡ 32
      → length signature ≡ 64
      → curve.is_x_only key ≡ point
      → (if point then some (key_path key signature) else none) ≡ some spend
      → IsShaped spend
  key_path-IsShaped key signature true size rest point h =
      subst IsShaped (some-injective h) (size, rest, point)
  key_path-IsShaped key signature false size rest point h = cc

  is_x_only_point-length :
      (key : List ℕ) → length key ≡ 32 → curve.is_x_only key ≡ is_x_only_point crypto curve key
  unfolding is_x_only_point
  is_x_only_point-length key size = rw size refl

  spend_of_ck1-IsShaped :
      (value : Text) (decoded : DecodedCk1) {spend : Spend}
      → decode_ck1 bech value ≡ some decoded
      → spend_of_ck1 crypto curve bech decoded ≡ some spend
      → IsShaped spend
  spend_of_ck1-IsShaped value (legacy signature) found h = legacy-IsShaped _ h
  spend_of_ck1-IsShaped value (current payload) found h =
      let (parts, split, made) = and_then-eq-some (take_bytes 32 payload) _ h in
      let (size, whole) = take_bytes-eq-some 32 payload split in
      let rest : length parts.1 ≡ 64 = omega (
        arith,
        size,
        ap length whole,
        length-append parts.0 parts.1,
        decode_ck1-length value found,
      ) in
      key_path-IsShaped parts.0 parts.1 _ size rest (is_x_only_point-length parts.0 size) made

  pub decode_spend-IsShaped :
      (k1 : Text) {spend : Spend} → decode_spend crypto curve bech k1 ≡ some spend → IsShaped spend
  unfolding decode_spend
  decode_spend-IsShaped k1 {spend} h = elim (Option-cases (hex32 crypto (trim k1))) [
    | inr (preimage, hex) ↦
        let h1 : and_then (bearer_cw1 crypto curve preimage) (spend_of_cw1 crypto curve bech)
            ≡ some spend =
          rw (decode_spend, hex) at (h) in
        let (cw1, _, made) = and_then-eq-some (bearer_cw1 crypto curve preimage) _ h1 in
        script_path-IsShaped cw1 _ made
    | inl other ↦ elim (Option-cases (decode_ck1 bech (trim k1))) [
      | inr (decoded, found) ↦
          let h1 : spend_of_ck1 crypto curve bech decoded ≡ some spend =
            rw (decode_spend, other, found) at (h) in
          spend_of_ck1-IsShaped (trim k1) decoded found h1
      | inl unsigned ↦
          let h1 : and_then (decode_cw1 (output_key_of crypto curve) bech (trim k1))
                (spend_of_cw1 crypto curve bech)
              ≡ some spend =
            rw (decode_spend, other, unsigned) at (h) in
          let (cw1, _, made) =
            and_then-eq-some (decode_cw1 (output_key_of crypto curve) bech (trim k1)) _ h1 in
          script_path-IsShaped cw1 _ made
    ]
  ]
