-- ===== src/Note.antt =====
-- src/note.rs: what a note URL claims, and the next URL of a note.
pub mod Query
pub mod Rewrite
pub mod RoundTrip
pub mod Check
use lnurlcash_core.Common.{
  ℕ, Bool, true, false, not, ◌&&◌, ◌||◌, List, [], ◌∷◌, ◌++◌, Option, none, some, if◌then◌else◌,
  keep, is_some, is_some_and, and_then, map_option, or_else,
}
use lnurlcash_core.Common.Text.{Text, codes, text_eq, lower, trim}
use lnurlcash_core.Common.Decimal.{decimal, parse_u64}
use lnurlcash_core.Deps.{UrlApi, SpendApi, BechApi}
use lnurlcash_core.LongBech32.{Checksum}
use lnurlcash_core.Urls.Resolve.{resolve_lnurl_input}
use lnurlcash_core.Urls.{from_lud17}

abbrev pub Pair : Type 0
Pair = Text × Text

-- `.find(|(k, _)| k == key)`
unfoldable pub find_param : Text → List Pair → Option Text
find_param key [] = none
find_param key ((k, v) ∷ pairs) = if text_eq k key then some v else find_param key pairs

abbrev pub key_is : Pair → List Text → Bool
key_is pair [] = false
key_is pair (k ∷ ks) = text_eq pair.0 k || key_is pair ks

abbrev pub optional : Option Text → (Text → Pair) → List Pair
optional none f = []
optional (some s) f = f s ∷ []

-- What the loop of `with_new_k1` has seen.
pub record Seen : Type 0 where
  pub k1 : Bool
  pub amount : Bool
  pub sig : Bool

-- What takes the place of the old parameters: the secret, if the URL keeps one, the amount, unless
-- the certificate implies it, and the certificate.
pub record Fresh : Type 0 where
  pub k1 : Option Text
  pub amount : Option Text
  pub signature : Option Text

-- The arms of the `match` on a key: the pair that is pushed, and the flags that are set.
unfoldable pub emitted : Fresh → Pair → Seen → List Pair
emitted fresh (key, value) seen =
    if text_eq key (codes "k1")
    then optional fresh.k1 (λ v. (codes "k1", v))
    else if text_eq key (codes "amount")
    then optional fresh.amount (λ v. (codes "amount", v))
    else if text_eq key (codes "c") || text_eq key (codes "sig")
    then (if seen.sig then [] else optional fresh.signature (λ v. (codes "c", v)))
    else (key, value) ∷ []

unfoldable pub see : Fresh → Text → Seen → Seen
see fresh key seen =
    if text_eq key (codes "k1")
    then record seen { k1 = seen.k1 || is_some fresh.k1 }
    else if text_eq key (codes "amount")
    then record seen { amount = seen.amount || is_some fresh.amount }
    else if text_eq key (codes "c") || text_eq key (codes "sig")
    then record seen { sig = seen.sig || is_some fresh.signature }
    else seen

-- The loop of `with_new_k1` and `without_k1` over the pairs of the old URL.
unfoldable pub rewrite_pairs : Fresh → List Pair → Seen → List Pair × Seen
rewrite_pairs fresh [] seen = ([], seen)
rewrite_pairs fresh ((key, value) ∷ pairs) seen =
    let (rest, last) = rewrite_pairs fresh pairs (see fresh key seen) in
    (emitted fresh (key, value) seen ++ rest, last)

abbrev pub unless : Bool → List Pair → List Pair
unless seen pairs = if seen then [] else pairs

-- What both functions do behind the loop.
unfoldable pub rewrite_query : Fresh → List Pair → List Pair
rewrite_query fresh pairs =
    let (rewritten, seen) =
      rewrite_pairs fresh pairs (record { k1 = false; amount = false; sig = false }) in
    rewritten
    ++ (unless seen.k1 (optional fresh.k1 (λ v. (codes "k1", v)))
        ++ (unless seen.amount (optional fresh.amount (λ v. (codes "amount", v)))
            ++ unless seen.sig (optional fresh.signature (λ v. (codes "c", v)))))

-- An amount that the certificate carries is not written.
abbrev pub fresh_for : SpendApi → Option Text → ℕ → Option Text → Fresh
fresh_for spend k1 amount_msat signature = record {
  k1 = k1;
  amount =
      if is_some_and signature (λ s. is_some (spend.cs1_amount s))
      then none
      else some (decimal amount_msat);
  signature = signature;
}

module _ {Url : Type 0} (u : UrlApi Url) where
  unfoldable pub first_param : Text → Text → Option Text
  unfolding find_param
  first_param url key = and_then (u.parse url) (λ x. find_param key (u.query_pairs x))

  unfoldable pub note_k1 : Text → Option Text
  note_k1 url = map_option lower (first_param url (codes "k1"))

  unfoldable pub note_signature : Text → Option Text
  note_signature url = or_else (first_param url (codes "c")) (first_param url (codes "sig"))

  unfoldable pub append_pairs : List Pair → Url → Url
  append_pairs [] x = x
  append_pairs ((k, v) ∷ pairs) x = append_pairs pairs (u.append_pair x k v)

  unfoldable pub rebuild : Url → List Pair → Text
  unfolding append_pairs
  rebuild url pairs = u.to_string (append_pairs pairs (u.clear_query url))

  unfoldable pub build_note_url : Text → Text → Option ℕ → Option Text
  unfolding rebuild
  build_note_url withdraw_link k1 amount_msat =
      and_then (u.parse (from_lud17 (trim withdraw_link))) λ url. some (
        rebuild url (
          keep (λ p. not (key_is p (codes "k1" ∷ codes "amount" ∷ []))) (u.query_pairs url)
          ++ ((codes "k1", lower (trim k1))
              ∷ optional (map_option decimal amount_msat) (λ amount. (codes "amount", amount)))))

module _ {Url : Type 0} (u : UrlApi Url) (spend : SpendApi) where
  unfoldable pub note_declared_amount : Text → Option ℕ
  note_declared_amount url = elim (first_param u url (codes "amount")) [
    | some amount ↦ parse_u64 amount
    | none ↦ and_then (note_signature u url) spend.cs1_amount
  ]

  unfoldable pub build_note_info_url_by_hash : Text → Text → Option Text
  unfolding rebuild
  build_note_info_url_by_hash withdraw_link h =
      let value = lower (trim h) in
      if not (spend.names_note value)
      then none
      else and_then (u.parse (from_lud17 (trim withdraw_link))) λ url. some (
          rebuild u url (
            keep
              (λ p. not (
                key_is p (
                  codes "k1"
                  ∷ codes "amount"
                  ∷ codes "c"
                  ∷ codes "sig"
                  ∷ codes "p"
                  ∷ codes "h"
                  ∷ [])))
              (u.query_pairs url)
            ++ (codes "p", value) ∷ []))

  unfoldable pub with_new_k1 : Text → Text → ℕ → Option Text → Option Text
  unfolding rebuild rewrite_query
  with_new_k1 url k1 amount_msat signature = and_then (u.parse url) λ parsed. some (
      rebuild u parsed (
        rewrite_query (fresh_for spend (some (lower k1)) amount_msat signature)
          (u.query_pairs parsed)))

  unfoldable pub without_k1 : Text → ℕ → Option Text → Option Text
  unfolding rebuild rewrite_query
  without_k1 url amount_msat signature = and_then (u.parse url) λ parsed. some (
      rebuild u parsed
        (rewrite_query (fresh_for spend none amount_msat signature) (u.query_pairs parsed)))

module _ {Url : Type 0} (bech : BechApi Checksum) (u : UrlApi Url) (spend : SpendApi) where
  unfoldable pub resolve_note_input : Text → Option Text
  resolve_note_input value =
      and_then (resolve_lnurl_input bech u value) λ url.
        and_then (note_k1 u url) λ k1. if is_some (spend.note_id_of k1) then some url else none

  unfoldable pub is_valid_note_input : Text → Bool
  is_valid_note_input value = is_some (resolve_note_input value)
