-- ===== src/LongBech32.antt =====
-- src/long_bech32.rs: bech32 and bech32m without a limit on the length, over the `bech32` crate.
use lnurlcash_core.Common.{
  ℕ, ◌-◌, ◌^◌, List, [], ◌∷◌, Option, none, some, if◌then◌else◌, and_then, not,
}
use lnurlcash_core.Common.Text.{Text, text_eq}
use lnurlcash_core.Deps.{BechApi}

-- What the `Checksum` trait asks for.
pub record Checksum : Type 0 where
  pub generator_sh : List ℕ
  pub target_residue : ℕ
  pub checksum_length : ℕ
  pub code_length : ℕ

abbrev generator : List ℕ
generator = 0x3b6a57b2 ∷ 0x26508e6d ∷ 0x1ea119fa ∷ 0x3d4233dd ∷ 0x2a1462b3 ∷ []

abbrev pub bech32 : Checksum
bech32 = record {
  generator_sh = generator;
  target_residue = 1;
  checksum_length = 6;
  code_length = 2 ^ 64 - 1;
}

abbrev pub bech32m : Checksum
bech32m = record {
  generator_sh = generator;
  target_residue = 0x2bc830a3;
  checksum_length = 6;
  code_length = 2 ^ 64 - 1;
}

module _ (b : BechApi Checksum) where
  unfoldable pub encode : Checksum → Text → List ℕ → Option Text
  encode checksum hrp bytes = b.encode checksum hrp bytes

  unfoldable pub decode : Checksum → Text → Text → Option (List ℕ)
  decode checksum hrp value = and_then (b.checked checksum value) λ checked.
      if not (text_eq checked.0 hrp) then none else if checked.1 then some checked.2 else none
