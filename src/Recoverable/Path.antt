-- ===== src/Recoverable/Path.antt =====
-- The paths of src/recoverable.rs: where a note sits below a service's root.
pub mod Injective
use lnurlcash_core.Common.{
  ℕ, ◌+◌, ◌%◌, ◌^◌, List, [], ◌∷◌, ◌++◌, ltb, not, if◌then◌else◌, ok, err, ◌>>=◌, ◌>>◌, guard,
}
use lnurlcash_core.Common.Text.{Text, codes}
use lnurlcash_core.Common.Decimal.{decimal}
use lnurlcash_core.Errors.{Error, protocol, Result}

abbrev pub chain_wallet : ℕ
chain_wallet = 0

abbrev pub chain_change : ℕ
chain_change = 1

abbrev pub chain_share : ℕ
chain_share = 2

abbrev pub hardened : ℕ
hardened = 0x80000000

pub data NotePath : Type 0 where
  wallet change : (account index : ℕ) → NotePath
  share : (account number index : ℕ) → NotePath

unfoldable pub below_hardened : ℕ → Text → Result ℕ
below_hardened value what = do
  guard (ltb value hardened)
      (protocol (what ++ codes " " ++ decimal value ++ codes " is not below 2^31"))
  ok value

abbrev pub harden : ℕ → ℕ
harden value = (value + hardened) % 2 ^ 32

abbrev pub account_of : NotePath → ℕ
account_of (wallet account index) = account
account_of (change account index) = account
account_of (share account number index) = account

abbrev pub index_of : NotePath → ℕ
index_of (wallet account index) = index
index_of (change account index) = index
index_of (share account number index) = index

-- The levels between the account and the note.
unfoldable pub middle_of : NotePath → Result (List ℕ)
middle_of (wallet account index) = ok (chain_wallet ∷ [])
middle_of (change account index) = ok (chain_change ∷ [])
middle_of (share account number index) = do
  below ← below_hardened number (codes "a share")
  ok (chain_share ∷ harden below ∷ [])

unfoldable pub indices : NotePath → Result (List ℕ)
indices path = do
  middle ← middle_of path
  account ← below_hardened (account_of path) (codes "an account")
  index ← below_hardened (index_of path) (codes "a note index")
  ok (harden account ∷ (middle ++ index ∷ []))
