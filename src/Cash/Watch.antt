-- ===== src/Cash/Watch.antt =====
-- `derive_cash_child` and `derive_cash_child_pub` of src/cash.rs: deriving in public is what deriving in
-- private shows.
use lnurlcash_core.Common.{
  ℕ, ◌<◌, true, false, none, some, ◌≡◌, refl, arith, leb, ltb, take, drop, ok, ok_or, ◌>>=◌, ◌>>◌,
  guard, Option-cases, inl, inr, List, Bool, ◌++◌,
}
use lnurlcash_core.Errors.{Result}
use lnurlcash_core.Deps.{HmacApi, CurveApi}
use lnurlcash_core.Recoverable.Cw1.{u32_bytes}
use lnurlcash_core.Cash.{
  hardened, CashNode, out_of_range, derive_cash_child, derive_cash_child_pub, cash_node_public_key,
}

-- What the documentation of `secp256k1` says of tweaks: that of a secret key and that of its public key
-- meet in the same point or both fail, and a public key reads back.
pub record CurveLaws (curve : CurveApi) : Type 0 where
  pub public_of-is_compressed :
      (key : List ℕ) {point : List ℕ}
      → curve.public_of key ≡ some point
      → curve.is_compressed point ≡ true
  pub tweak-some :
      (key tweak : List ℕ) {point child : List ℕ}
      → curve.public_of key ≡ some point
      → curve.secret_add_tweak key tweak ≡ some child
      → (below : List ℕ) × (curve.public_of child ≡ some below)
        × (curve.add_exp_tweak point tweak ≡ some below)
  pub tweak-none :
      (key tweak : List ℕ) {point : List ℕ}
      → curve.public_of key ≡ some point
      → curve.secret_add_tweak key tweak ≡ none
      → curve.add_exp_tweak point tweak ≡ none

abbrev node_of : List ℕ → List ℕ → CashNode
node_of key chain_code = record { private_key = key; chain_code = chain_code }

module _ (hmac : HmacApi) (curve : CurveApi) (laws : CurveLaws curve) where
  -- What a node shows of itself: its public key and its chain code.
  abbrev pub neutered : CashNode → Result (List ℕ × List ℕ)
  neutered node = cash_node_public_key hmac curve node >>= λ pubkey. ok (pubkey, node.chain_code)

  -- Both derivations behind the hash that they share.
  meet :
      (node : CashNode) (index : ℕ) {pubkey : List ℕ}
      → curve.public_of node.private_key ≡ some pubkey
      → (material : List ℕ) (scalar : Bool)
      → (guard scalar (out_of_range index)
          >> (ok_or (curve.add_exp_tweak pubkey (take 32 material)) (out_of_range index)
              >>= λ child. ok (child, drop 32 material)))
        ≡ (guard scalar (out_of_range index)
            >> (ok_or
                  (curve.secret_add_tweak node.private_key (take 32 material))
                  (out_of_range index)
                >>= λ child. ok (node_of child (drop 32 material)))
            >>= neutered)
  unfolding cash_node_public_key
  meet node index {pubkey} valid material false = refl
  meet node index {pubkey} valid material true =
      elim (Option-cases (curve.secret_add_tweak node.private_key (take 32 material))) [
        | inl zero_key ↦
            let infinite = laws.tweak-none node.private_key (take 32 material) valid zero_key in
            rw (zero_key, infinite) refl
        | inr (child, tweaked) ↦
            let (below, shown, added) =
              laws.tweak-some node.private_key (take 32 material) valid tweaked in
            rw (tweaked, added) (rw (shown) refl)
      ]

  -- Below 2 ^ 31, the child of what a node shows is what the node's child shows, and the one derivation
  -- fails with the same error as the other.
  pub derive_cash_child_pub-neutered :
      (node : CashNode) (index : ℕ) {pubkey : List ℕ}
      → curve.public_of node.private_key ≡ some pubkey
      → index < hardened
      → derive_cash_child_pub hmac curve pubkey node.chain_code index
        ≡ (derive_cash_child hmac curve node index >>= neutered)
  unfolding derive_cash_child derive_cash_child_pub cash_node_public_key
  derive_cash_child_pub-neutered node index {pubkey} valid plain =
      let low : ltb index hardened ≡ true = ground arith in
      let soft : leb hardened index ≡ false = ground arith in
      rw (low, valid, soft)
        (rw (laws.public_of-is_compressed node.private_key valid)
          (meet node index valid (hmac.hmac512 node.chain_code (pubkey ++ u32_bytes index)) _))
