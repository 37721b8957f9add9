-- ===== src/Common/Trim.antt =====
-- What a trimmed text has in it stands in the text.
use mathlib.Core.Path.{◌≡◌, refl, sym, ap, ◌∙◌, subst}
use mathlib.Core.Bool.{true}
use mathlib.Core.List.{[], ◌∷◌, ◌++◌, reverse, reverse-reverse, reverse-append, append_assoc}
use Prim.Native.Nat.{ℕ}
use mathlib.Core.Bool.{Bool}
use native.Mathlib.Omega.{arith}
use lnurlcash_core.Common.Text.{
  Text, starts_with, contains, drop_while, take_while, is_whitespace, trim_start, trim_end, trim,
}

pub take_while-drop_while : (p : ℕ → Bool) (s : Text) → take_while p s ++ drop_while p s ≡ s
unfolding take_while drop_while
take_while-drop_while p [] = refl
take_while-drop_while p (c ∷ s) = ground (arith, take_while-drop_while p s)

starts_with-append : (p s t : Text) → starts_with p s ≡ true → starts_with p (s ++ t) ≡ true
unfolding starts_with
starts_with-append [] s t h = refl
starts_with-append (x ∷ p) [] t h = cc
starts_with-append (x ∷ p) (c ∷ s) t h = ground (arith, starts_with-append p s t)

contains-append_right : (p s t : Text) → contains p s ≡ true → contains p (s ++ t) ≡ true
unfolding contains
contains-append_right [] [] [] h = refl
contains-append_right [] [] (c ∷ t) h = refl
contains-append_right (x ∷ p) [] t h = unfold starts_with in cc
contains-append_right p (c ∷ s) t h =
    ground (arith, starts_with-append p (c ∷ s) t, contains-append_right p s t)

contains-append_left : (p s t : Text) → contains p t ≡ true → contains p (s ++ t) ≡ true
unfolding contains
contains-append_left p [] t h = h
contains-append_left p (c ∷ s) t h = ground (arith, contains-append_left p s t)

-- The characters before and behind a trimmed text.
abbrev behind : Text → Text
behind u = reverse (take_while is_whitespace (reverse u))

trim_end-append-behind : (u : Text) → trim_end u ++ behind u ≡ u
unfolding trim_end
trim_end-append-behind u =
    sym
      (reverse-append (take_while is_whitespace (reverse u)) (drop_while is_whitespace (reverse u)))
    ∙ ap reverse (take_while-drop_while is_whitespace (reverse u))
    ∙ reverse-reverse u

trim_parts : (s : Text) → take_while is_whitespace s ++ trim s ++ behind (trim_start s) ≡ s
unfolding trim trim_start
trim_parts s =
    append_assoc (take_while is_whitespace s) (trim_end (drop_while is_whitespace s)) _
    ∙ ap (λ (t : Text). take_while is_whitespace s ++ t)
        (trim_end-append-behind (drop_while is_whitespace s))
    ∙ take_while-drop_while is_whitespace s

pub contains-trim : (p s : Text) → contains p (trim s) ≡ true → contains p s ≡ true
contains-trim p s h =
    subst (λ t. contains p t ≡ true) (trim_parts s)
      (contains-append_right p (take_while is_whitespace s ++ trim s) (behind (trim_start s))
        (contains-append_left p (take_while is_whitespace s) (trim s) h))

pub starts_with_refl : (p : Text) → starts_with p p ≡ true
unfolding starts_with
starts_with_refl [] = refl
starts_with_refl (x ∷ p) = ground (arith, starts_with_refl p)

pub contains_refl : (p : Text) → contains p p ≡ true
unfolding contains
contains_refl [] = starts_with_refl []
contains_refl (x ∷ p) = ground (arith, starts_with_refl (x ∷ p))
