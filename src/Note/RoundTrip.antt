-- ===== src/Note/RoundTrip.antt =====
-- The next URL of a note, read back: `with_new_k1` and `without_k1` of src/note.rs.
use mathlib.Core.List.{append_assoc, append-nil}
use lnurlcash_core.Common.{
  some-injective, ◌⊎◌, inl, inr, ℕ, ◌≤◌, List, [], ◌∷◌, ◌++◌, Option, none, some, ◌≡◌, refl, sym,
  ap, subst, ◌∙◌, arith, and_then, map_option,
}
use lnurlcash_core.Common.Text.{Text, codes, lower, lower_char, is_ascii_uppercase}
use lnurlcash_core.Common.Decimal.{max_u64}
use lnurlcash_core.Common.Decimal.RoundTrip.{parse_u64-decimal}
use lnurlcash_core.Deps.{UrlApi, UrlLaws, SpendApi}
use lnurlcash_core.Note.{
  Pair, find_param, Fresh, rewrite_query, fresh_for, append_pairs, rebuild, first_param, note_k1,
  note_signature, note_declared_amount, with_new_k1, without_k1,
}
use lnurlcash_core.Note.Query.{IsOther}
use lnurlcash_core.Note.Rewrite.{
  rewrite_query-k1, rewrite_query-amount, rewrite_query-c, rewrite_query-sig, rewrite_query-other,
}

lower_char_idem : (c : ℕ) → lower_char (lower_char c) ≡ lower_char c
unfolding lower_char is_ascii_uppercase
lower_char_idem c = ground arith

lower_idem : (s : Text) → lower (lower s) ≡ lower s
unfolding lower
lower_idem [] = refl
lower_idem (c ∷ s) = cc (lower_char_idem c, lower_idem s)

module _ {Url : Type 0} (u : UrlApi Url) (laws : UrlLaws u) where
  pub query_pairs-append_pairs :
      (pairs : List Pair) (x : Url)
      → u.query_pairs (append_pairs u pairs x) ≡ u.query_pairs x ++ pairs
  unfolding append_pairs
  query_pairs-append_pairs [] x = sym (append-nil _)
  query_pairs-append_pairs ((k, v) ∷ pairs) x =
      query_pairs-append_pairs pairs (u.append_pair x k v)
      ∙ ap (λ (ps : List Pair). ps ++ pairs) (laws.query_pairs-append_pair x k v)
      ∙ append_assoc (u.query_pairs x) ((k, v) ∷ []) pairs

  -- A rebuilt URL has the pairs that it was given.
  pub first_param-rebuild :
      (url : Url) (pairs : List Pair) (key : Text)
      → first_param u (rebuild u url pairs) key ≡ find_param key pairs
  unfolding first_param rebuild
  first_param-rebuild url pairs key =
      simp (laws.parse-to_string, query_pairs-append_pairs, laws.query_pairs-clear_query)

  -- What a rewritten URL carries, for the values it was given.
  pub record Carries (url new : Text) (fresh : Fresh) : Type 0 where
    pub k1 : note_k1 u new ≡ map_option lower fresh.k1
    pub amount : first_param u new (codes "amount") ≡ fresh.amount
    pub signature : note_signature u new ≡ fresh.signature
    pub legacy : first_param u new (codes "sig") ≡ none
    pub others : (key : Text) → IsOther key → first_param u new key ≡ first_param u url key

  note_k1-first_param :
      (url : Text) {v : Option Text}
      → first_param u url (codes "k1") ≡ v
      → note_k1 u url ≡ map_option lower v
  unfolding note_k1
  note_k1-first_param url e = ap (map_option lower) e

  note_signature-first_param :
      (url : Text) {v : Option Text}
      → first_param u url (codes "c") ≡ v
      → first_param u url (codes "sig") ≡ none
      → note_signature u url ≡ v
  unfolding note_signature
  note_signature-first_param url {v = none} c sig = rw (c, sig)
  note_signature-first_param url {v = some v} c sig = rw c

  first_param-parse :
      (url key : Text) {parsed : Url}
      → u.parse url ≡ some parsed
      → find_param key (u.query_pairs parsed) ≡ first_param u url key
  unfolding first_param
  first_param-parse url key e = rw e

  rebuild-Carries :
      (url : Text) (parsed : Url) (fresh : Fresh)
      → u.parse url ≡ some parsed
      → Carries url (rebuild u parsed (rewrite_query fresh (u.query_pairs parsed))) fresh
  rebuild-Carries url parsed fresh e =
      let legacy =
        first_param-rebuild parsed _ (codes "sig")
        ∙ rewrite_query-sig fresh (u.query_pairs parsed) in
      record {
        k1 =
            note_k1-first_param _
              (first_param-rebuild parsed _ (codes "k1") ∙ rewrite_query-k1 fresh _);
        amount = first_param-rebuild parsed _ (codes "amount") ∙ rewrite_query-amount fresh _;
        signature =
            note_signature-first_param _
              (first_param-rebuild parsed _ (codes "c") ∙ rewrite_query-c fresh _) legacy;
        legacy = legacy;
        others = λ key other.
            first_param-rebuild parsed _ key
            ∙ rewrite_query-other fresh _ other
            ∙ first_param-parse url key e;
      }

  module _ (spend : SpendApi) where
    -- The next URL of a note that parses: it carries the new secret in lower case, the new amount
    -- unless the certificate implies it, the new certificate as `c` and never as `sig`, or no
    -- certificate at all, and every other parameter as it was.
    pub with_new_k1-Carries :
        (url k1 : Text) (amount_msat : ℕ) (signature : Option Text) (parsed : Url)
        → u.parse url ≡ some parsed
        → (new : Text) × (with_new_k1 u spend url k1 amount_msat signature ≡ some new)
          × (note_k1 u new ≡ some (lower k1))
          × Carries url new (fresh_for spend (some (lower k1)) amount_msat signature)
    unfolding with_new_k1
    with_new_k1-Carries url k1 amount_msat signature parsed e =
        let fresh = fresh_for spend (some (lower k1)) amount_msat signature in
        let carries = rebuild-Carries url parsed fresh e in
        (
          rebuild u parsed (rewrite_query fresh (u.query_pairs parsed)),
          rw e refl,
          carries.k1 ∙ ap some (lower_idem k1),
          carries,
        )

    -- The blank URL of a note that parses: it carries no secret, the amount unless the certificate
    -- implies it, the certificate as `c` and never as `sig`, or none, and every other parameter as
    -- it was.
    pub without_k1-Carries :
        (url : Text) (amount_msat : ℕ) (signature : Option Text) (parsed : Url)
        → u.parse url ≡ some parsed
        → (new : Text) × (without_k1 u spend url amount_msat signature ≡ some new)
          × Carries url new (fresh_for spend none amount_msat signature)
    unfolding without_k1
    without_k1-Carries url amount_msat signature parsed e =
        let fresh = fresh_for spend none amount_msat signature in
        (
          rebuild u parsed (rewrite_query fresh (u.query_pairs parsed)),
          rw e refl,
          rebuild-Carries url parsed fresh e,
        )

    certified_amount :
        (s : Text) (amount_msat : ℕ)
        → ((a : ℕ) → spend.cs1_amount s ≡ some a → a ≡ amount_msat)
        → (found : Option ℕ) → spend.cs1_amount s ≡ found
        → (found ≡ none) ⊎ (spend.cs1_amount s ≡ some amount_msat)
    certified_amount s amount_msat agrees none e = inl refl
    certified_amount s amount_msat agrees (some a) e = inr (e ∙ ap some (agrees a e))

    declared_amount_lem :
        (url new k1 : Text) (amount_msat : ℕ) (signature : Option Text)
        → amount_msat ≤ max_u64
        → ((a : ℕ) → and_then signature spend.cs1_amount ≡ some a → a ≡ amount_msat)
        → Carries url new (fresh_for spend (some k1) amount_msat signature)
        → note_declared_amount u spend new ≡ some amount_msat
    unfolding note_declared_amount
    declared_amount_lem url new k1 amount_msat none fits agrees carries =
        ground (arith, carries.amount, parse_u64-decimal amount_msat)
    declared_amount_lem url new k1 amount_msat (some s) fits agrees carries =
        elim (certified_amount s amount_msat agrees (spend.cs1_amount s) refl) [
          | inl e ↦ ground (arith, e, carries.amount, parse_u64-decimal amount_msat)
          | inr e ↦ ground (arith, e, carries.amount, carries.signature)
        ]

    -- The next URL of a note declares the amount that it was given, if that is a `u64` and the
    -- certificate carries no other.
    pub note_declared_amount-with_new_k1 :
        (url k1 new : Text) (amount_msat : ℕ) (signature : Option Text) (parsed : Url)
        → u.parse url ≡ some parsed
        → amount_msat ≤ max_u64
        → ((a : ℕ) → and_then signature spend.cs1_amount ≡ some a → a ≡ amount_msat)
        → with_new_k1 u spend url k1 amount_msat signature ≡ some new
        → note_declared_amount u spend new ≡ some amount_msat
    note_declared_amount-with_new_k1 url k1 new amount_msat signature parsed e fits agrees h =
        let (written, same, _, carries) =
          with_new_k1-Carries url k1 amount_msat signature parsed e in
        subst (λ t. note_declared_amount u spend t ≡ some amount_msat)
          (some-injective (sym same ∙ h))
          (declared_amount_lem url written (lower k1) amount_msat signature fits agrees carries)
