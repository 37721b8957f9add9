-- ===== src/Fees/Token/Bounds.antt =====
-- The fees that the parser of src/fees.rs returns.
use lnurlcash_core.Common.{
  List, [], ◌∷◌, map, Option, none, some, ◌≡◌, arith, some-injective, and_then-eq-some, subst,
}
use lnurlcash_core.Common.Text.{Text, codes, after_first}
use lnurlcash_core.Deps.{JsonApi}
use lnurlcash_core.Fees.{MintFee}
use lnurlcash_core.Fees.Monotone.{IsBounded}
use lnurlcash_core.Fees.Token.{
  fee_of_parts, parse_token, find_token, arrays, plain_text, parse_mint_fee,
}

fee_of_parts-IsBounded :
    (base : Text) (parts : List Text) (fee : MintFee)
    → fee_of_parts base parts ≡ some fee
    → IsBounded fee
unfolding fee_of_parts
fee_of_parts-IsBounded base [] fee h = ground arith
fee_of_parts-IsBounded base (ppm ∷ more) fee h = ground arith

parse_token-IsBounded : (text : Text) (fee : MintFee) → parse_token text ≡ some fee → IsBounded fee
unfolding parse_token
parse_token-IsBounded text fee h =
    let (behind, _, h1) = and_then-eq-some (after_first (codes "Mint fees:") text) _ h in
    fee_of_parts-IsBounded _ _ fee h1

find_token-IsBounded :
    (entries : List (Option Text)) (fee : MintFee) → find_token entries ≡ some fee → IsBounded fee
find_token-IsBounded [] fee h = ground arith
find_token-IsBounded (none ∷ entries) fee h = find_token-IsBounded entries fee h
find_token-IsBounded (some text ∷ entries) fee h =
    ground (arith, parse_token-IsBounded text fee, find_token-IsBounded entries fee)

module _ {Value : Type 0} (json : JsonApi Value) where
  pub parse_mint_fee-IsBounded :
      (metadata : Text) (fee : MintFee) → parse_mint_fee json metadata ≡ some fee → IsBounded fee
  unfolding parse_mint_fee
  parse_mint_fee-IsBounded metadata fee h =
      let (value, _, h1) = and_then-eq-some (json.from_str metadata) _ h in
      let (items, _, h2) = and_then-eq-some (json.value_array value) _ h1 in
      let (entries, _, h3) = and_then-eq-some (arrays json items) _ h2 in
      let (found, first, h4) = and_then-eq-some (find_token (map (plain_text json) entries)) _ h3 in
      let same : some found ≡ some fee = ground arith in
      subst IsBounded (some-injective same)
        (find_token-IsBounded (map (plain_text json) entries) found first)
