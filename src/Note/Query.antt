-- ===== src/Note/Query.antt =====
-- Lookups in the query that `with_new_k1` and `without_k1` of src/note.rs write.
use lnurlcash_core.Common.{
  Bool, true, false, not, ◌&&◌, ◌||◌, List, [], ◌∷◌, ◌++◌, none, some, ◌≡◌, refl, sym, subst, arith,
  if◌then◌else◌, is_some, or_else,
}
use lnurlcash_core.Common.Text.{Text, codes, text_eq, text_eq_iff, text_eq_refl}
use lnurlcash_core.Note.{Pair, find_param, Fresh, Seen, emitted, see, rewrite_pairs}

pub find_param-append :
    (key : Text) (xs ys : List Pair)
    → find_param key (xs ++ ys) ≡ or_else (find_param key xs) (find_param key ys)
unfolding find_param
find_param-append key [] ys = refl
find_param-append key ((k, v) ∷ xs) ys = ground (arith, find_param-append key xs ys)

-- The names of the parameters that are rewritten differ.
pub record Names : Type 0 where
  pub k1-amount : text_eq (codes "k1") (codes "amount") ≡ false
  pub k1-c : text_eq (codes "k1") (codes "c") ≡ false
  pub k1-sig : text_eq (codes "k1") (codes "sig") ≡ false
  pub amount-k1 : text_eq (codes "amount") (codes "k1") ≡ false
  pub amount-c : text_eq (codes "amount") (codes "c") ≡ false
  pub amount-sig : text_eq (codes "amount") (codes "sig") ≡ false
  pub c-k1 : text_eq (codes "c") (codes "k1") ≡ false
  pub c-amount : text_eq (codes "c") (codes "amount") ≡ false
  pub c-sig : text_eq (codes "c") (codes "sig") ≡ false

pub names : Names
unfolding codes text_eq
names = record {
  k1-amount = refl;
  k1-c = refl;
  k1-sig = refl;
  amount-k1 = refl;
  amount-c = refl;
  amount-sig = refl;
  c-k1 = refl;
  c-amount = refl;
  c-sig = refl;
}

abbrev pub has : Text → List Pair → Bool
has key pairs = is_some (find_param key pairs)

-- Two lookups of one text agree.
same_text : (key a b : Text) → text_eq a b ≡ false → text_eq key a ≡ true → text_eq key b ≡ false
same_text key a b h e = subst (λ (t : Text). text_eq t b ≡ false) (sym ((text_eq_iff key a).0 e)) h

-- A parameter that is not rewritten.
pub record IsOther (key : Text) : Type 0 where
  pub k1 : text_eq (codes "k1") key ≡ false
  pub amount : text_eq (codes "amount") key ≡ false
  pub c : text_eq (codes "c") key ≡ false
  pub sig : text_eq (codes "sig") key ≡ false

module _ (fresh : Fresh) where
  emitted-k1 :
      (key value : Text) (seen : Seen)
      → find_param (codes "k1") (emitted fresh (key, value) seen)
        ≡ (if text_eq key (codes "k1") then fresh.k1 else none)
  unfolding emitted find_param
  emitted-k1 key value seen = ground (arith, names.amount-k1, names.c-k1, text_eq_refl (codes "k1"))

  see-k1 :
      (key : Text) (seen : Seen)
      → (see fresh key seen).k1 ≡ (seen.k1 || (text_eq key (codes "k1") && is_some fresh.k1))
  unfolding see
  see-k1 key seen = ground arith

  pub rewrite_pairs-k1 :
      (pairs : List Pair) (seen : Seen)
      → (find_param (codes "k1") (rewrite_pairs fresh pairs seen).0
          ≡ (if has (codes "k1") pairs then fresh.k1 else none))
        × ((rewrite_pairs fresh pairs seen).1.k1
            ≡ (seen.k1 || (has (codes "k1") pairs && is_some fresh.k1)))
  unfolding rewrite_pairs find_param
  rewrite_pairs-k1 [] seen = ground arith
  rewrite_pairs-k1 ((key, value) ∷ pairs) seen =
      let (found, flag) = rewrite_pairs-k1 pairs (see fresh key seen) in
      let here = emitted-k1 key value seen in
      let both =
        find_param-append (codes "k1") (emitted fresh (key, value) seen)
          (rewrite_pairs fresh pairs (see fresh key seen)).0 in
      let flags = see-k1 key seen in (ground arith, ground arith)

  emitted-amount :
      (key value : Text) (seen : Seen)
      → find_param (codes "amount") (emitted fresh (key, value) seen)
        ≡ (if text_eq key (codes "amount") then fresh.amount else none)
  unfolding emitted find_param
  emitted-amount key value seen = ground (
    arith,
    names.k1-amount,
    names.c-amount,
    text_eq_refl (codes "amount"),
    same_text key (codes "k1") (codes "amount") names.k1-amount,
  )

  see-amount :
      (key : Text) (seen : Seen)
      → (see fresh key seen).amount
        ≡ (seen.amount || (text_eq key (codes "amount") && is_some fresh.amount))
  unfolding see
  see-amount key seen = ground (arith, same_text key (codes "k1") (codes "amount") names.k1-amount)

  pub rewrite_pairs-amount :
      (pairs : List Pair) (seen : Seen)
      → (find_param (codes "amount") (rewrite_pairs fresh pairs seen).0
          ≡ (if has (codes "amount") pairs then fresh.amount else none))
        × ((rewrite_pairs fresh pairs seen).1.amount
            ≡ (seen.amount || (has (codes "amount") pairs && is_some fresh.amount)))
  unfolding rewrite_pairs find_param
  rewrite_pairs-amount [] seen = ground arith
  rewrite_pairs-amount ((key, value) ∷ pairs) seen =
      let (found, flag) = rewrite_pairs-amount pairs (see fresh key seen) in
      let here = emitted-amount key value seen in
      let both =
        find_param-append (codes "amount") (emitted fresh (key, value) seen)
          (rewrite_pairs fresh pairs (see fresh key seen)).0 in
      let flags = see-amount key seen in (ground arith, ground arith)

  abbrev is_cert : Text → Bool
  is_cert key = text_eq key (codes "c") || text_eq key (codes "sig")

  abbrev has_cert : List Pair → Bool
  has_cert [] = false
  has_cert ((key, _) ∷ pairs) = is_cert key || has_cert pairs

  -- A certificate's name is no other name.
  no_cert : (key k : Text) → text_eq key k ≡ true → is_cert k ≡ false → is_cert key ≡ false
  no_cert key k e h = subst (λ (t : Text). is_cert t ≡ false) (sym ((text_eq_iff key k).0 e)) h

  k1_no_cert : is_cert (codes "k1") ≡ false
  k1_no_cert = ground (arith, names.k1-c, names.k1-sig)

  amount_no_cert : is_cert (codes "amount") ≡ false
  amount_no_cert = ground (arith, names.amount-c, names.amount-sig)

  emitted-c :
      (key value : Text) (seen : Seen)
      → find_param (codes "c") (emitted fresh (key, value) seen)
        ≡ (if is_cert key && not seen.sig then fresh.signature else none)
  unfolding emitted find_param
  emitted-c key value seen = ground (
    arith,
    names.k1-c,
    names.amount-c,
    text_eq_refl (codes "c"),
    no_cert key (codes "k1"),
    no_cert key (codes "amount"),
    k1_no_cert,
    amount_no_cert,
  )

  emitted-sig :
      (key value : Text) (seen : Seen)
      → find_param (codes "sig") (emitted fresh (key, value) seen) ≡ none
  unfolding emitted find_param
  emitted-sig key value seen = ground (arith, names.k1-sig, names.amount-sig, names.c-sig)

  see-sig :
      (key : Text) (seen : Seen)
      → (see fresh key seen).sig ≡ (seen.sig || (is_cert key && is_some fresh.signature))
  unfolding see
  see-sig key seen =
      ground
        (arith, no_cert key (codes "k1"), no_cert key (codes "amount"), k1_no_cert, amount_no_cert)

  pub rewrite_pairs-c :
      (pairs : List Pair) (seen : Seen)
      → (find_param (codes "c") (rewrite_pairs fresh pairs seen).0
          ≡ (if has_cert pairs && not seen.sig then fresh.signature else none))
        × ((rewrite_pairs fresh pairs seen).1.sig
            ≡ (seen.sig || (has_cert pairs && is_some fresh.signature)))
  unfolding rewrite_pairs find_param
  rewrite_pairs-c [] seen = ground arith
  rewrite_pairs-c ((key, value) ∷ pairs) seen =
      let (found, flag) = rewrite_pairs-c pairs (see fresh key seen) in
      let here = emitted-c key value seen in
      let both =
        find_param-append (codes "c") (emitted fresh (key, value) seen)
          (rewrite_pairs fresh pairs (see fresh key seen)).0 in
      let flags = see-sig key seen in (ground arith, ground arith)

  pub rewrite_pairs-sig :
      (pairs : List Pair) (seen : Seen)
      → find_param (codes "sig") (rewrite_pairs fresh pairs seen).0 ≡ none
  unfolding rewrite_pairs find_param
  rewrite_pairs-sig [] seen = refl
  rewrite_pairs-sig ((key, value) ∷ pairs) seen =
      let rest = rewrite_pairs-sig pairs (see fresh key seen) in
      let here = emitted-sig key value seen in
      let both =
        find_param-append (codes "sig") (emitted fresh (key, value) seen)
          (rewrite_pairs fresh pairs (see fresh key seen)).0 in
      ground arith

  module _ {q : Text} (other : IsOther q) where
    emitted-other :
        (key value : Text) (seen : Seen)
        → find_param q (emitted fresh (key, value) seen)
          ≡ (if text_eq key q then some value else none)
    unfolding emitted find_param
    emitted-other key value seen = ground (
      arith,
      same_text key (codes "k1") q other.k1,
      same_text key (codes "amount") q other.amount,
      same_text key (codes "c") q other.c,
      same_text key (codes "sig") q other.sig,
      other.k1,
      other.amount,
      other.c,
    )

    pub rewrite_pairs-other :
        (pairs : List Pair) (seen : Seen)
        → find_param q (rewrite_pairs fresh pairs seen).0 ≡ find_param q pairs
    unfolding rewrite_pairs find_param
    rewrite_pairs-other [] seen = refl
    rewrite_pairs-other ((key, value) ∷ pairs) seen =
        let rest = rewrite_pairs-other pairs (see fresh key seen) in
        let here = emitted-other key value seen in
        let both =
          find_param-append q (emitted fresh (key, value) seen)
            (rewrite_pairs fresh pairs (see fresh key seen)).0 in
        ground arith
