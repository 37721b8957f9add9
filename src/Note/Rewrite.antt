-- ===== src/Note/Rewrite.antt =====
-- `with_new_k1` and `without_k1` of src/note.rs: what the new URL carries.
use lnurlcash_core.Common.{false, List, none, ◌≡◌, arith, or_else}
use lnurlcash_core.Common.Text.{Text, codes, text_eq_refl}
use lnurlcash_core.Note.{
  Pair, find_param, optional, Fresh, Seen, rewrite_pairs, unless, rewrite_query,
}
use lnurlcash_core.Note.Query.{
  find_param-append, names, IsOther, rewrite_pairs-k1, rewrite_pairs-amount, rewrite_pairs-c,
  rewrite_pairs-sig, rewrite_pairs-other,
}

abbrev unseen : Seen
unseen = record { k1 = false; amount = false; sig = false }

module _ (fresh : Fresh) (pairs : List Pair) where
  abbrev written : List Pair
  written = (rewrite_pairs fresh pairs unseen).0

  abbrev last : Seen
  last = (rewrite_pairs fresh pairs unseen).1

  abbrev k1_tail : List Pair
  k1_tail = unless last.k1 (optional fresh.k1 (λ v. (codes "k1", v)))

  abbrev amount_tail : List Pair
  amount_tail = unless last.amount (optional fresh.amount (λ v. (codes "amount", v)))

  abbrev sig_tail : List Pair
  sig_tail = unless last.sig (optional fresh.signature (λ v. (codes "c", v)))

  -- A lookup in what is written looks through the four parts in turn.
  find_param-rewrite_query :
      (key : Text)
      → find_param key (rewrite_query fresh pairs)
        ≡ or_else (find_param key written) (
            or_else
              (find_param key k1_tail)
              (or_else (find_param key amount_tail) (find_param key sig_tail)))
  unfolding rewrite_query
  find_param-rewrite_query key = simp (find_param-append)

  pub rewrite_query-k1 : find_param (codes "k1") (rewrite_query fresh pairs) ≡ fresh.k1
  unfolding find_param
  rewrite_query-k1 =
      let (found, flag) = rewrite_pairs-k1 fresh pairs unseen in
      ground (
        arith,
        find_param-rewrite_query (codes "k1"),
        names.amount-k1,
        names.c-k1,
        text_eq_refl (codes "k1"),
      )

  pub rewrite_query-amount : find_param (codes "amount") (rewrite_query fresh pairs) ≡ fresh.amount
  unfolding find_param
  rewrite_query-amount =
      let (found, flag) = rewrite_pairs-amount fresh pairs unseen in
      ground (
        arith,
        find_param-rewrite_query (codes "amount"),
        names.k1-amount,
        names.c-amount,
        text_eq_refl (codes "amount"),
      )

  pub rewrite_query-c : find_param (codes "c") (rewrite_query fresh pairs) ≡ fresh.signature
  unfolding find_param
  rewrite_query-c =
      let (found, flag) = rewrite_pairs-c fresh pairs unseen in
      ground (
        arith,
        find_param-rewrite_query (codes "c"),
        names.k1-c,
        names.amount-c,
        text_eq_refl (codes "c"),
      )

  pub rewrite_query-sig : find_param (codes "sig") (rewrite_query fresh pairs) ≡ none
  unfolding find_param
  rewrite_query-sig = ground (
    arith,
    rewrite_pairs-sig fresh pairs unseen,
    find_param-rewrite_query (codes "sig"),
    names.k1-sig,
    names.amount-sig,
    names.c-sig,
  )

  pub rewrite_query-other :
      {q : Text} → IsOther q → find_param q (rewrite_query fresh pairs) ≡ find_param q pairs
  unfolding find_param
  rewrite_query-other {q} other = ground (
    arith,
    rewrite_pairs-other fresh other pairs unseen,
    find_param-rewrite_query q,
    other.k1,
    other.amount,
    other.c,
  )
