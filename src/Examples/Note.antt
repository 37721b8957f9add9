-- ===== src/Examples/Note.antt =====
-- The theorems on src/note.rs at a concrete URL.
use lnurlcash_core.Common.{ℕ, [], ◌∷◌, some, ◌≡◌, refl, arith, and_then}
use lnurlcash_core.Common.Text.{
  Text, codes, lower, lower_char, is_ascii_uppercase, strip_prefix, text_eq, is_ascii_digit,
}
use lnurlcash_core.Common.Decimal.{decimal, digits_before, parse_u64, scan_digits, scan}
use lnurlcash_core.Note.{
  note_k1, note_declared_amount, with_new_k1, fresh_for, rebuild, append_pairs, rewrite_query,
  rewrite_pairs, emitted, see,
}
use lnurlcash_core.Note.RoundTrip.{Carries, with_new_k1-Carries, note_declared_amount-with_new_k1}
use lnurlcash_core.Samples.{secret, sample_spend}
use lnurlcash_core.Samples.Url.{sample_url, sample_url_laws}

-- A note of 10 msat, with a certificate in an old spelling.
abbrev old_url : Text
unfolding append_pairs
old_url =
    append_pairs sample_url
      ((codes "k1", codes "AB")
        ∷ (codes "amount", codes "10")
        ∷ (codes "sig", codes "cs110")
        ∷ (codes "x", codes "y")
        ∷ [])
      (codes "https://m.example/cb")

abbrev next_url : Text
unfolding append_pairs
next_url =
    append_pairs sample_url
      ((codes "k1", secret) ∷ (codes "c", codes "cs17") ∷ (codes "x", codes "y") ∷ [])
      (codes "https://m.example/cb")

with_new_k1-Carries_example :
    (new : Text) × (with_new_k1 sample_url sample_spend old_url secret 7 (some (codes "cs17"))
      ≡ some new)
    × (note_k1 sample_url new ≡ some (lower secret))
    × Carries sample_url sample_url_laws old_url new
        (fresh_for sample_spend (some (lower secret)) 7 (some (codes "cs17")))
unfolding old_url sample_url
with_new_k1-Carries_example =
    with_new_k1-Carries sample_url sample_url_laws sample_spend old_url secret 7
      (some (codes "cs17")) old_url refl

certified_seven : (a : ℕ) → and_then (some (codes "cs17")) sample_spend.cs1_amount ≡ some a → a ≡ 7
unfolding parse_u64 scan_digits scan strip_prefix codes is_ascii_digit
certified_seven a h = ground arith

note_declared_amount-with_new_k1_example :
    note_declared_amount sample_url sample_spend next_url ≡ some 7
unfolding with_new_k1 rebuild append_pairs rewrite_query rewrite_pairs emitted see text_eq codes
    decimal digits_before lower lower_char is_ascii_uppercase parse_u64 scan_digits scan
    strip_prefix is_ascii_digit old_url next_url sample_url
note_declared_amount-with_new_k1_example =
    note_declared_amount-with_new_k1 sample_url sample_url_laws sample_spend old_url secret next_url
      7 (some (codes "cs17")) old_url refl (omega arith) certified_seven refl
