-- ===== src/Recoverable/Path/Injective.antt =====
-- No two paths of src/recoverable.rs have the same indices.
use lnurlcash_core.Common.{
  some-injective, ℕ, zero, suc, ◌-◌, ◌<◌, List, [], ◌∷◌, ◌++◌, Option, none, some, ◌≡◌, sym, ap,
  ◌∙◌, subst, arith, ok, >>=-eq-ok, ok-injective,
}
use lnurlcash_core.Common.Text.{Text}
use lnurlcash_core.Errors.{Result}
use lnurlcash_core.Recoverable.Path.{
  hardened, NotePath, wallet, change, share, below_hardened, harden, account_of, index_of,
  middle_of, indices,
}

-- The path that a list of indices is.
abbrev path_of : List ℕ → Option NotePath
path_of (account ∷ zero ∷ index ∷ []) = some (wallet (account - hardened) index)
path_of (account ∷ suc zero ∷ index ∷ []) = some (change (account - hardened) index)
path_of (account ∷ suc (suc zero) ∷ number ∷ index ∷ []) =
    some (share (account - hardened) (number - hardened) index)
path_of _ = none

below_hardened-eq-ok :
    (value : ℕ) (what : Text) {result : ℕ}
    → below_hardened value what ≡ ok result
    → (result ≡ value) × (value < hardened)
unfolding below_hardened
below_hardened-eq-ok value what h = (ground arith, ground arith)

unharden : (value : ℕ) → value < hardened → harden value - hardened ≡ value
unharden value h = omega arith

-- What `indices` gives, level by level.
indices-eq-ok :
    (path : NotePath) (levels : List ℕ)
    → indices path ≡ ok levels
    → (middle : List ℕ) × (middle_of path ≡ ok middle)
      × (account_of path < hardened)
      × (levels ≡ harden (account_of path) ∷ (middle ++ index_of path ∷ []))
unfolding indices
indices-eq-ok path levels h =
    let (middle, between, h1) = >>=-eq-ok (middle_of path) _ h in
    let (account, top, h2) = >>=-eq-ok (below_hardened (account_of path) _) _ h1 in
    let (index, last, h3) = >>=-eq-ok (below_hardened (index_of path) _) _ h2 in
    let (a, small) = below_hardened-eq-ok _ _ top in
    let (i, _) = below_hardened-eq-ok _ _ last in
    (
      middle,
      between,
      small,
      sym (ok-injective h3)
          ∙ ap (λ (n : ℕ). harden n ∷ (middle ++ index ∷ [])) a
          ∙ ap (λ (n : ℕ). harden (account_of path) ∷ (middle ++ n ∷ [])) i,
    )

middle_of-share :
    (account number index : ℕ) (middle : List ℕ)
    → middle_of (share account number index) ≡ ok middle
    → (number < hardened) × (middle ≡ 2 ∷ harden number ∷ [])
unfolding middle_of
middle_of-share account number index middle h =
    let (below, e, h1) = >>=-eq-ok (below_hardened number _) _ h in
    let (same, small) = below_hardened-eq-ok _ _ e in
    (small, sym (ok-injective h1) ∙ ap (λ (n : ℕ). 2 ∷ harden n ∷ []) same)

path_of-middle :
    (path : NotePath) (middle : List ℕ)
    → middle_of path ≡ ok middle
    → account_of path < hardened
    → path_of (harden (account_of path) ∷ (middle ++ index_of path ∷ [])) ≡ some path
path_of-middle (wallet account index) middle h small =
    let plain : ◌≡◌ {A = Result (List ℕ)} (ok (0 ∷ [])) (ok middle) = unfold middle_of in h in
    subst
      (λ (m : List ℕ). path_of (harden account ∷ (m ++ index ∷ [])) ≡ some (wallet account index))
      (ok-injective plain) (ap (λ (n : ℕ). some (wallet n index)) (unharden account small))
path_of-middle (change account index) middle h small =
    let plain : ◌≡◌ {A = Result (List ℕ)} (ok (1 ∷ [])) (ok middle) = unfold middle_of in h in
    subst
      (λ (m : List ℕ). path_of (harden account ∷ (m ++ index ∷ [])) ≡ some (change account index))
      (ok-injective plain) (ap (λ (n : ℕ). some (change n index)) (unharden account small))
path_of-middle (share account number index) middle h small =
    let (below, levels) = middle_of-share account number index middle h in
    subst
      (λ (m : List ℕ).
        path_of (harden account ∷ (m ++ index ∷ [])) ≡ some (share account number index))
      (sym levels)
      (ap (λ (n : ℕ). some (share n (harden number - hardened) index)) (unharden account small)
        ∙ ap (λ (n : ℕ). some (share account n index)) (unharden number below))

path_of-indices :
    (path : NotePath) (levels : List ℕ) → indices path ≡ ok levels → path_of levels ≡ some path
path_of-indices path levels h =
    let (middle, between, small, shape) = indices-eq-ok path levels h in
    ap path_of shape ∙ path_of-middle path middle between small

-- Two paths with the same indices are the same path: no chain, account or share has a note's indices
-- in common with another.
pub indices-injective :
    (p q : NotePath) (levels : List ℕ) → indices p ≡ ok levels → indices q ≡ ok levels → p ≡ q
indices-injective p q levels hp hq =
    some-injective (sym (path_of-indices p levels hp) ∙ path_of-indices q levels hq)
