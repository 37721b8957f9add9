-- ===== src/Examples/Keys.antt =====
-- The theorem on the keys of src/recoverable.rs at a concrete share.
use lnurlcash_core.Common.{[], ◌∷◌, ◌≡◌, refl, arith, ok, ◌>>=◌}
use lnurlcash_core.Samples.Curve.{appending, curve, curve-CurveLaws}
use lnurlcash_core.Cash.{CashNode, derive_cash_child, cash_node_public_key}
use lnurlcash_core.Recoverable.Path.{share, below_hardened}
use lnurlcash_core.Recoverable.Keys.{
  Cx1, derive_note_key, derive_share_node, cash_node_to_cx1, derive_note_pubkey,
}
use lnurlcash_core.Recoverable.Keys.Watch.{derive_note_pubkey-share}

abbrev root : CashNode
root = record { private_key = 5 ∷ 6 ∷ []; chain_code = 7 ∷ [] }

abbrev share_node : CashNode
share_node = record {
  private_key =
      5 ∷ 6 ∷ 7 ∷ 0 ∷ 5 ∷ 6 ∷ 128 ∷ 0 ∷ 0 ∷ 1 ∷ 0 ∷ 0 ∷ 0 ∷ 0 ∷ 0 ∷ 0 ∷ 0 ∷ 0 ∷ 0 ∷ 0 ∷ 0 ∷ 0 ∷ 0
      ∷ 0 ∷ 0 ∷ 0 ∷ 0 ∷ 0 ∷ 0 ∷ 0 ∷ 0 ∷ 0 ∷ 0 ∷ 0 ∷ 0 ∷ 0 ∷ 0 ∷ 0 ∷ 0 ∷ 0 ∷ 0 ∷ 0 ∷ 0 ∷ 0 ∷ 0 ∷ 0
      ∷ 0 ∷ 0 ∷ 0 ∷ 0 ∷ 0 ∷ 0 ∷ 0 ∷ 0 ∷ 0 ∷ 0 ∷ 0 ∷ 0 ∷ 0 ∷ 0 ∷ 0 ∷ 0 ∷ 0 ∷ 0 ∷ 0 ∷ 0 ∷ 2 ∷ 5 ∷ 6
      ∷ 7 ∷ 0 ∷ 5 ∷ 6 ∷ 128 ∷ 0 ∷ 0 ∷ 1 ∷ 0 ∷ 0 ∷ 0 ∷ 0 ∷ 0 ∷ 0 ∷ 0 ∷ 0 ∷ 0 ∷ 0 ∷ 0 ∷ 0 ∷ 0 ∷ 0 ∷ 0
      ∷ 0 ∷ 0 ∷ 0 ∷ 0 ∷ 0 ∷ 0 ∷ [];
  chain_code =
      0 ∷ 5 ∷ 6 ∷ 7 ∷ 0 ∷ 5 ∷ 6 ∷ 128 ∷ 0 ∷ 0 ∷ 1 ∷ 0 ∷ 0 ∷ 0 ∷ 0 ∷ 0 ∷ 0 ∷ 0 ∷ 0 ∷ 0 ∷ 0 ∷ 0 ∷ 0
      ∷ 0 ∷ 0 ∷ 0 ∷ 0 ∷ 0 ∷ 0 ∷ 0 ∷ 0 ∷ 0 ∷ [];
}

abbrev share_cx1 : Cx1
share_cx1 = record { chain_code = share_node.chain_code; pubkey = 2 ∷ share_node.private_key }

share_made : derive_share_node appending curve root 1 2 ≡ ok share_node
unfolding derive_share_node derive_cash_child below_hardened
share_made = refl

share_shown : cash_node_to_cx1 appending curve share_node ≡ ok share_cx1
unfolding cash_node_to_cx1 cash_node_public_key
share_shown = refl

derive_note_pubkey-share_example :
    derive_note_pubkey appending curve share_cx1 3
    ≡ (derive_note_key appending curve root (share 1 2 3) >>= λ key. ok key.output_key)
derive_note_pubkey-share_example =
    derive_note_pubkey-share appending curve curve-CurveLaws root 1 2 3 share_made share_shown
      (omega arith)
