-- ===== src/Signature/Message.antt =====
-- The messages that src/signature.rs has a service sign: each says one thing.
use lnurlcash_core.Common.{
  ℕ, ◌≤◌, Bool, true, false, ◌&&◌, [], ◌∷◌, ◌++◌, some, ◌≡◌, ◌≢◌, refl, sym, ap, ◌∙◌, subst, arith,
  all, map, some-injective, Option-cases, inl, inr, append-injective,
}
use lnurlcash_core.Common.Text.{
  Text, trim, lower, lower_char, is_ascii_digit, is_ascii_hexdigit, is_ascii_uppercase, not_char,
}
use lnurlcash_core.Common.Decimal.{decimal, parse_u64, max_u64}
use lnurlcash_core.Common.Decimal.RoundTrip.{parse_u64-decimal, decimal-IsPrinted}
use lnurlcash_core.Deps.{UrlApi, BechApi}
use lnurlcash_core.LongBech32.{Checksum}
use lnurlcash_core.Spend.Sighash.{spend_domain_of}
use lnurlcash_core.Signature.{
  domain_tag, is_hex_id, legacy_note_signature_message_for_hash, note_signature_message_for_hash,
}

abbrev no_colon : Text → Bool
no_colon s = all (not_char b':') s

and-right : (a : Bool) {b : Bool} → (a && b) ≡ true → b ≡ true
and-right true h = h
and-right false h = cc

no_colon-append : (s t : Text) → no_colon (s ++ b':' ∷ t) ≢ true
no_colon-append [] t h = cc h
no_colon-append (c ∷ s) t h = no_colon-append s t (and-right (not_char b':' c) h)

append_assoc : (s t r : Text) → (s ++ t) ++ r ≡ s ++ (t ++ r)
append_assoc [] t r = refl
append_assoc (c ∷ s) t r = ap (λ x. c ∷ x) (append_assoc s t r)

behind : {c d : ℕ} {s t : Text} → c ∷ s ≡ d ∷ t → s ≡ t
behind h = cc h

-- A text splits in one way at its last colon.
last_colon :
    (s t : Text) {u v : Text}
    → no_colon u ≡ true
    → no_colon v ≡ true
    → s ++ b':' ∷ u ≡ t ++ b':' ∷ v
    → (s ≡ t) × (u ≡ v)
last_colon [] [] hu hv h = (refl, cc h)
last_colon [] (c ∷ t) {u} {v} hu hv h =
    absurd (no_colon-append t v (subst (λ x. no_colon x ≡ true) (behind h) hu))
last_colon (c ∷ s) [] {u} {v} hu hv h =
    absurd (no_colon-append s u (subst (λ x. no_colon x ≡ true) (sym (behind h)) hv))
last_colon (c ∷ s) (d ∷ t) hu hv h =
    let (same, rest) = last_colon s t hu hv (behind h) in (cc (h, same), rest)

and-left : (a b : Bool) → (a && b) ≡ true → a ≡ true
and-left true b h = refl
and-left false b h = cc

module _ (p : ℕ → Bool) (f : ℕ → ℕ) (each : (c : ℕ) → p c ≡ true → not_char b':' (f c) ≡ true) where
  no_colon-map : (s : Text) → all p s ≡ true → no_colon (map f s) ≡ true
  no_colon-map [] h = refl
  no_colon-map (c ∷ s) h = rw (each c (and-left (p c) _ h), no_colon-map s (and-right (p c) h)) refl

map_id : (s : Text) → map (λ c. c) s ≡ s
map_id [] = refl
map_id (c ∷ s) = ap (λ t. c ∷ t) (map_id s)

hex_colonless : (c : ℕ) → is_ascii_hexdigit c ≡ true → not_char b':' (lower_char c) ≡ true
unfolding is_ascii_hexdigit is_ascii_digit lower_char is_ascii_uppercase
hex_colonless c h = ground arith

digit_colonless : (c : ℕ) → is_ascii_digit c ≡ true → not_char b':' c ≡ true
unfolding is_ascii_digit
digit_colonless c h = ground arith

no_colon-lower : (id : Text) → is_hex_id id ≡ true → no_colon (lower id) ≡ true
unfolding is_hex_id lower
no_colon-lower id h = no_colon-map is_ascii_hexdigit lower_char hex_colonless id (and-right _ h)

no_colon-decimal : (n : ℕ) → n ≤ max_u64 → no_colon (decimal n) ≡ true
no_colon-decimal n small =
    subst (λ t. no_colon t ≡ true) (map_id (decimal n))
      (no_colon-map is_ascii_digit (λ c. c) digit_colonless (decimal n)
        (decimal-IsPrinted n small).digits)

decimal-injective : (n m : ℕ) → n ≤ max_u64 → m ≤ max_u64 → decimal n ≡ decimal m → n ≡ m
decimal-injective n m hn hm h =
    some-injective (sym (parse_u64-decimal n hn) ∙ ap parse_u64 h ∙ parse_u64-decimal m hm)

module _ {Url : Type 0} (u : UrlApi Url) (bech : BechApi Checksum) where
  message_of :
      (id domain : Text) (amount_msat : ℕ) {message : Text}
      → note_signature_message_for_hash u bech id domain amount_msat ≡ some message
      → (host : Text) × (spend_domain_of u bech domain ≡ some host)
        × ((domain_tag ++ ((host ++ b':' ∷ decimal amount_msat) ++ b':' ∷ lower (trim id)))
            ≡ message)
  unfolding note_signature_message_for_hash
  message_of id domain amount_msat {message} h =
      elim (Option-cases (spend_domain_of u bech domain)) [
        | inl nowhere ↦ cc (rw (nowhere) at (h))
        | inr (host, found) ↦
            let made = some-injective (rw (found) at (h)) in
            (
              host,
              found,
              ap (λ t. domain_tag ++ t)
                    (append_assoc host (b':' ∷ decimal amount_msat) (b':' ∷ lower (trim id)))
                  ∙ made,
            )
      ]

  -- For ids of 64 hex digits and amounts of 64 bits, equal messages are of the same host, the same amount and
  -- the same id in lower case.
  pub note_signature_message_for_hash-injective :
      (id other : Text) (domain elsewhere : Text) (amount_msat amount : ℕ) {message : Text}
      → is_hex_id (trim id) ≡ true
      → is_hex_id (trim other) ≡ true
      → amount_msat ≤ max_u64
      → amount ≤ max_u64
      → note_signature_message_for_hash u bech id domain amount_msat ≡ some message
      → note_signature_message_for_hash u bech other elsewhere amount ≡ some message
      → (spend_domain_of u bech domain ≡ spend_domain_of u bech elsewhere)
        × (amount_msat ≡ amount)
        × (lower (trim id) ≡ lower (trim other))
  note_signature_message_for_hash-injective id other domain elsewhere amount_msat amount hid hother
        small small1 h h1 =
      let (host, found, made) = message_of id domain amount_msat h in
      let (host1, found1, made1) = message_of other elsewhere amount h1 in
      let (_, behind_tag) = append-injective domain_tag domain_tag refl (made ∙ sym made1) in
      let (front, ids) =
        last_colon (host ++ b':' ∷ decimal amount_msat) (host1 ++ b':' ∷ decimal amount)
          (no_colon-lower (trim id) hid) (no_colon-lower (trim other) hother) behind_tag in
      let (hosts, amounts) =
        last_colon host host1 (no_colon-decimal amount_msat small) (no_colon-decimal amount small1)
          front in
      (
        found ∙ ap some hosts ∙ sym found1,
        decimal-injective amount_msat amount small small1 amounts,
        ids,
      )

  -- For two ids of 64 hex digits, and where the amount of the superseded message is a u64: no message
  -- with a domain is a superseded one without.
  pub note_signature_message_for_hash-legacy :
      (id other domain : Text) (amount_msat amount : ℕ)
      → is_hex_id (trim id) ≡ true
      → is_hex_id (trim other) ≡ true
      → amount ≤ max_u64
      → note_signature_message_for_hash u bech id domain amount_msat
        ≢ some (legacy_note_signature_message_for_hash other amount)
  unfolding legacy_note_signature_message_for_hash
  note_signature_message_for_hash-legacy id other domain amount_msat amount hid hother small h =
      let (host, found, made) = message_of id domain amount_msat h in
      let (_, behind_tag) = append-injective domain_tag domain_tag refl made in
      let (front, _) =
        last_colon (host ++ b':' ∷ decimal amount_msat) (decimal amount)
          (no_colon-lower (trim id) hid) (no_colon-lower (trim other) hother) behind_tag in
      no_colon-append host (decimal amount_msat)
        (subst (λ t. no_colon t ≡ true) (sym front) (no_colon-decimal amount small))
