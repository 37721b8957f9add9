-- ===== src/Recoverable/Keys/Watch.antt =====
-- The notes of a share in src/recoverable.rs: who holds the share's `cx1` names the notes whose keys the
-- wallet derives.
use lnurlcash_core.Common.{
  ℕ, ◌<◌, List, [], ◌∷◌, true, some, ◌≡◌, refl, sym, ap, ◌∙◌, arith, ltb, ltb→lt, ok, err, ◌>>=◌,
  guard, >>=-eq-ok, ok-injective, guard-eq-ok, ok_or-eq-ok,
}
use lnurlcash_core.Common.Text.{Text}
use lnurlcash_core.Errors.{Result}
use lnurlcash_core.Deps.{HmacApi, CurveApi}
use lnurlcash_core.Recoverable.Path.{share, indices, chain_share, harden, below_hardened, middle_of}
use lnurlcash_core.Recoverable.Ownership.{x_of}
use lnurlcash_core.Cash.{CashNode, hardened, derive_cash_child, cash_node_public_key, descend}
use lnurlcash_core.Cash.Watch.{CurveLaws, derive_cash_child_pub-neutered}
use lnurlcash_core.Recoverable.Keys.{
  Cx1, NoteKey, derive_note_key, derive_share_node, cash_node_to_cx1, derive_note_pubkey,
}

below_hardened-below :
    (value : ℕ) (what : Text) → value < hardened → below_hardened value what ≡ ok value
unfolding below_hardened
below_hardened-below value what h =
    let low : ltb value hardened ≡ true = ground arith in rw low refl

below_hardened-eq-ok :
    (value : ℕ) (what : Text) {result : ℕ}
    → below_hardened value what ≡ ok result
    → value < hardened
unfolding below_hardened
below_hardened-eq-ok value what h =
    let (_, low, _) = >>=-eq-ok (guard (ltb value hardened) _) _ h in
    ltb→lt value hardened (guard-eq-ok (ltb value hardened) _ low)

-- The tail of `derive_note_key`, and that of a derivation in public, are the same look at the child.
module _ (key_of : CashNode → List ℕ → NoteKey)
    (key_of-output_key : (node : CashNode) (pubkey : List ℕ)
      → (key_of node pubkey).output_key ≡ x_of pubkey) where
  keyed_one :
      (node : CashNode) (shown : Result (List ℕ))
      → ((shown >>= λ pubkey. ok (key_of node pubkey)) >>= λ key. ok key.output_key)
        ≡ (shown >>= λ pubkey. ok (x_of pubkey))
  keyed_one node (err e) = refl
  keyed_one node (ok pubkey) = ap ok (key_of-output_key node pubkey)

  keyed :
      (found : Result CashNode) (shown : CashNode → Result (List ℕ))
      → (((found >>= λ child. ok child) >>= λ node.
            shown node >>= λ pubkey. ok (key_of node pubkey))
          >>= λ key. ok key.output_key)
        ≡ (found >>= λ child. shown child >>= λ pubkey. ok (x_of pubkey))
  keyed (err e) shown = refl
  keyed (ok child) shown = keyed_one child (shown child)

public_one :
    (node : CashNode) (shown : Result (List ℕ))
    → ((shown >>= λ pubkey. ok (pubkey, node.chain_code)) >>= λ (derived : List ℕ × List ℕ).
        ok (x_of derived.0))
      ≡ (shown >>= λ pubkey. ok (x_of pubkey))
public_one node (err e) = refl
public_one node (ok pubkey) = refl

public_tail :
    (found : Result CashNode) (shown : CashNode → Result (List ℕ))
    → ((found >>= λ child. shown child >>= λ pubkey. ok (pubkey, child.chain_code))
        >>= λ (derived : List ℕ × List ℕ). ok (x_of derived.0))
      ≡ (found >>= λ child. shown child >>= λ pubkey. ok (x_of pubkey))
public_tail (err e) shown = refl
public_tail (ok child) shown = public_one child (shown child)

abbrev note_key : CashNode → List ℕ → NoteKey
note_key node pubkey = record {
  secret_key = node.private_key;
  pubkey = pubkey;
  output_key = x_of pubkey;
}

module _ (hmac : HmacApi) (curve : CurveApi) where
  -- How a share's node came about.
  record IsShare (root : CashNode) (account number : ℕ) (node : CashNode) : Type 0 where
    pub account_low : account < hardened
    pub number_low : number < hardened
    pub account_node : CashNode
    pub shares_node : CashNode
    pub first : derive_cash_child hmac curve root (harden account) ≡ ok account_node
    pub second : derive_cash_child hmac curve account_node chain_share ≡ ok shares_node
    pub third : derive_cash_child hmac curve shares_node (harden number) ≡ ok node

  derive_share_node-IsShare :
      (root : CashNode) (account number : ℕ) {node : CashNode}
      → derive_share_node hmac curve root account number ≡ ok node
      → IsShare root account number node
  unfolding derive_share_node
  derive_share_node-IsShare root account number {node} h =
      let (a, below, h1) = >>=-eq-ok (below_hardened account _) _ h in
      let account_low = below_hardened-eq-ok account _ below in
      let a_is : account ≡ a =
        ok-injective (sym (below_hardened-below account _ account_low) ∙ below) in
      let (m1, first, h2) = >>=-eq-ok (derive_cash_child hmac curve root (harden a)) _ h1 in
      let (m2, second, h3) = >>=-eq-ok (derive_cash_child hmac curve m1 chain_share) _ h2 in
      let (n, under, third) = >>=-eq-ok (below_hardened number _) _ h3 in
      let number_low = below_hardened-eq-ok number _ under in
      let n_is : number ≡ n =
        ok-injective (sym (below_hardened-below number _ number_low) ∙ under) in
      record {
        account_low = account_low;
        number_low = number_low;
        account_node = m1;
        shares_node = m2;
        first = rw a_is first;
        second = second;
        third = rw n_is third;
      }

  indices_share :
      (account number index : ℕ)
      → account < hardened
      → number < hardened
      → index < hardened
      → indices (share account number index)
        ≡ ok (harden account ∷ chain_share ∷ harden number ∷ index ∷ [])
  unfolding indices middle_of
  indices_share account number index ha hn hi =
      rw
        (
          below_hardened-below account _ ha,
          below_hardened-below number _ hn,
          below_hardened-below index _ hi,
        )
        refl

  -- A note of a share: its key is that of the child of the share's node.
  derive_note_key-share :
      {root : CashNode} {account number : ℕ} {node : CashNode} (index : ℕ)
      → IsShare root account number node
      → index < hardened
      → (derive_note_key hmac curve root (share account number index) >>= λ key. ok key.output_key)
        ≡ (derive_cash_child hmac curve node index >>= λ child.
            cash_node_public_key hmac curve child >>= λ pubkey. ok (x_of pubkey))
  unfolding derive_note_key descend
  derive_note_key-share {root} {account} {number} {node} index at low =
      rw (indices_share account number index at.account_low at.number_low low) (
        rw (at.first) (
          rw (at.second) (
            rw (at.third) (
              keyed note_key (λ child pubkey. refl) (derive_cash_child hmac curve node index)
                (cash_node_public_key hmac curve)))))

  cash_node_to_cx1-eq-ok :
      (node : CashNode) {cx1 : Cx1}
      → cash_node_to_cx1 hmac curve node ≡ ok cx1
      → (curve.public_of node.private_key ≡ some cx1.pubkey) × (node.chain_code ≡ cx1.chain_code)
  unfolding cash_node_to_cx1 cash_node_public_key
  cash_node_to_cx1-eq-ok node {cx1} h =
      let (pubkey, shown, made) = >>=-eq-ok (cash_node_public_key hmac curve node) _ h in
      let same = ok-injective made in
      (
        ok_or-eq-ok (curve.public_of node.private_key) _ shown
            ∙ ap (λ (c : Cx1). some c.pubkey) same,
        ap (λ (c : Cx1). c.chain_code) same,
      )

  -- If the curve keeps the laws of its tweaks, then the key that the holder of a share's `cx1` derives for
  -- an index below 2 ^ 31 is the output key of the wallet's note at that index of the share, and the one
  -- derivation fails with the same error as the other.
  pub derive_note_pubkey-share :
      CurveLaws curve
      → (root : CashNode) (account number index : ℕ) {node : CashNode} {cx1 : Cx1}
      → derive_share_node hmac curve root account number ≡ ok node
      → cash_node_to_cx1 hmac curve node ≡ ok cx1
      → index < hardened
      → derive_note_pubkey hmac curve cx1 index ≡ (
          derive_note_key hmac curve root (share account number index) >>= λ key. ok key.output_key)
  unfolding derive_note_pubkey
  derive_note_pubkey-share laws root account number index {node} {cx1} made shown low =
      let (valid, chain) = cash_node_to_cx1-eq-ok node shown in
      let watched = derive_cash_child_pub-neutered hmac curve laws node index valid low in
      let at = derive_share_node-IsShare root account number made in
      rw (sym chain, watched, derive_note_key-share index at low)
        (public_tail (derive_cash_child hmac curve node index) (cash_node_public_key hmac curve))
