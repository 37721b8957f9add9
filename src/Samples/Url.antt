-- ===== src/Samples/Url.antt =====
-- A URL type for the examples: a text with its pairs behind it, each behind a 0, with a 1 between
-- key and value, and the characters of both moved up by two.
use lnurlcash_core.Common.{
  zero, suc, List, [], ◌∷◌, ◌++◌, map, none, some, ◌≡◌, refl, ap, ◌∙◌, map_option,
}
use lnurlcash_core.Common.Text.{Text, codes, after_first, take_while, not_char}
use lnurlcash_core.Deps.{UrlApi, UrlLaws}

abbrev lifted : Text → Text
lifted [] = []
lifted (c ∷ s) = suc (suc c) ∷ lifted s

abbrev value_of : Text → Text
value_of [] = []
value_of (zero ∷ s) = value_of s
value_of (suc zero ∷ s) = value_of s
value_of (suc (suc c) ∷ s) = c ∷ value_of s

abbrev pair_of : Text → Text × Text
pair_of [] = ([], [])
pair_of (zero ∷ s) = pair_of s
pair_of (suc zero ∷ s) = ([], value_of s)
pair_of (suc (suc c) ∷ s) = let rest = pair_of s in (c ∷ rest.0, rest.1)

abbrev piece_of : Text → Text → Text
piece_of k v = lifted k ++ (1 ∷ lifted v)

abbrev pieces : Text → Text × List Text
pieces [] = ([], [])
pieces (zero ∷ s) = let rest = pieces s in ([], rest.0 ∷ rest.1)
pieces (suc c ∷ s) = let rest = pieces s in (suc c ∷ rest.0, rest.1)

abbrev base : Text → Text
base s = (pieces s).0

abbrev append : Text → Text → Text → Text
append s k v = s ++ (0 ∷ piece_of k v)

unfoldable pub sample_url : UrlApi Text
sample_url = record {
  parse = some;
  scheme = λ s. take_while (not_char b':') (base s);
  host_str = λ s. map_option (take_while (not_char b'/')) (after_first (codes "://") (base s));
  port = λ s. none;
  path = λ s. [];
  query_pairs = λ s. map pair_of (pieces s).1;
  clear_query = base;
  append_pair = append;
  to_string = λ s. s;
}

value_of-lifted : (v : Text) → value_of (lifted v) ≡ v
value_of-lifted [] = refl
value_of-lifted (c ∷ v) = ap (λ (t : Text). c ∷ t) (value_of-lifted v)

pair_of-piece_of : (k v : Text) → pair_of (piece_of k v) ≡ (k, v)
pair_of-piece_of [] v = ap (λ (t : Text). ([], t)) (value_of-lifted v)
pair_of-piece_of (c ∷ k) v = ap (λ (p : Text × Text). (c ∷ p.0, p.1)) (pair_of-piece_of k v)

pieces-lifted : (v : Text) → pieces (lifted v) ≡ (lifted v, [])
pieces-lifted [] = refl
pieces-lifted (c ∷ v) = ap (λ (p : Text × List Text). (suc (suc c) ∷ p.0, p.1)) (pieces-lifted v)

pieces-piece_of : (k v : Text) → pieces (piece_of k v) ≡ (piece_of k v, [])
pieces-piece_of [] v = ap (λ (p : Text × List Text). (1 ∷ p.0, p.1)) (pieces-lifted v)
pieces-piece_of (c ∷ k) v =
    ap (λ (p : Text × List Text). (suc (suc c) ∷ p.0, p.1)) (pieces-piece_of k v)

pieces-append :
    (s k v : Text) → pieces (append s k v) ≡ ((pieces s).0, (pieces s).1 ++ piece_of k v ∷ [])
pieces-append [] k v = ap (λ (p : Text × List Text). ([], p.0 ∷ p.1)) (pieces-piece_of k v)
pieces-append (zero ∷ s) k v = ap (λ (p : Text × List Text). ([], p.0 ∷ p.1)) (pieces-append s k v)
pieces-append (suc c ∷ s) k v =
    ap (λ (p : Text × List Text). (suc c ∷ p.0, p.1)) (pieces-append s k v)

pieces-base : (s : Text) → pieces (base s) ≡ (base s, [])
pieces-base [] = refl
pieces-base (zero ∷ s) = refl
pieces-base (suc c ∷ s) = ap (λ (p : Text × List Text). (suc c ∷ p.0, p.1)) (pieces-base s)

map-append_one :
    (ps : List Text) (p : Text) → map pair_of (ps ++ p ∷ []) ≡ map pair_of ps ++ pair_of p ∷ []
map-append_one [] p = refl
map-append_one (q ∷ ps) p = ap (λ (t : List (Text × Text)). pair_of q ∷ t) (map-append_one ps p)

pub sample_url_laws : UrlLaws sample_url
unfolding sample_url
sample_url_laws = record {
  parse-to_string = λ x. refl;
  query_pairs-clear_query = λ x. ap (λ (p : Text × List Text). map pair_of p.1) (pieces-base x);
  query_pairs-append_pair = λ x k v.
      ap (λ (p : Text × List Text). map pair_of p.1) (pieces-append x k v)
      ∙ map-append_one (pieces x).1 (piece_of k v)
      ∙ ap (λ (p : Text × Text). map pair_of (pieces x).1 ++ p ∷ []) (pair_of-piece_of k v);
  scheme-clear_query =
      λ x. ap (λ (p : Text × List Text). take_while (not_char b':') p.0) (pieces-base x);
  scheme-append_pair =
      λ x k v. ap (λ (p : Text × List Text). take_while (not_char b':') p.0) (pieces-append x k v);
  host_str-clear_query = λ x.
      ap
        (λ (p : Text × List Text).
          map_option (take_while (not_char b'/')) (after_first (codes "://") p.0))
        (pieces-base x);
  host_str-append_pair = λ x k v.
      ap
        (λ (p : Text × List Text).
          map_option (take_while (not_char b'/')) (after_first (codes "://") p.0))
        (pieces-append x k v);
}
