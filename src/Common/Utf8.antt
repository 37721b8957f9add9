-- ===== src/Common/Utf8.antt =====
-- `str::as_bytes` and `String::from_utf8`.
use Prim.Native.Nat.{ℕ, ◌+◌, ◌-◌, ◌*◌, ◌/◌, ◌%◌}
use mathlib.Core.Bool.{Bool, ◌&&◌, ◌||◌}
use mathlib.Core.Option.{Option, none, some}
use mathlib.Core.List.{List, [], ◌∷◌, ◌++◌}
use mathlib.Core.Path.{◌≡◌, refl, sym}
use mathlib.Core.Logic.{◌≢◌}
use native.Mathlib.Omega.{arith}
use lnurlcash_core.Common.Tests.{ltb, leb, if◌then◌else◌}
use lnurlcash_core.Common.Lists.{map_option}
use lnurlcash_core.Common.Text.{Text}

abbrev char_bytes : ℕ → List ℕ
char_bytes c =
    if ltb c 0x80
    then c ∷ []
    else if ltb c 0x800
    then (0xc0 + c / 64) ∷ (0x80 + c % 64) ∷ []
    else if ltb c 0x10000
    then (0xe0 + c / 4096) ∷ (0x80 + c / 64 % 64) ∷ (0x80 + c % 64) ∷ []
    else (0xf0 + c / 262144) ∷ (0x80 + c / 4096 % 64) ∷ (0x80 + c / 64 % 64) ∷ (0x80 + c % 64) ∷ []

unfoldable pub as_bytes : Text → List ℕ
as_bytes [] = []
as_bytes (c ∷ s) = char_bytes c ++ as_bytes s

abbrev is_continuation : ℕ → Bool
is_continuation b = leb 0x80 b && ltb b 0xc0

-- The bytes so far of one character: its value, how many are missing, and the least value that
-- needs as many.
pub data Decoder : Type 0 where
  ready : Decoder
  partial : (value missing least : ℕ) → Decoder

-- A character that is not over-long, no surrogate and no number above the last one.
abbrev is_scalar : ℕ → ℕ → Bool
is_scalar least c = leb least c && (ltb c 0xd800 || (leb 0xe000 c && ltb c 0x110000))

unfoldable pub decode_utf8 : List ℕ → Decoder → Option Text
decode_utf8 [] ready = some []
decode_utf8 [] (partial value missing least) = none
decode_utf8 (b ∷ bytes) ready =
    let plain = decode_utf8 bytes ready in
    let two = decode_utf8 bytes (partial (b - 0xc0) 1 0x80) in
    let three = decode_utf8 bytes (partial (b - 0xe0) 2 0x800) in
    let four = decode_utf8 bytes (partial (b - 0xf0) 3 0x10000) in
    if ltb b 0x80
    then map_option (λ (s : Text). b ∷ s) plain
    else if leb 0xc0 b && ltb b 0xe0
    then two
    else if leb 0xe0 b && ltb b 0xf0
    then three
    else if leb 0xf0 b && ltb b 0xf8
    then four
    else none
decode_utf8 (b ∷ bytes) (partial value missing least) =
    let c = value * 64 + (b - 0x80) in
    let done = decode_utf8 bytes ready in
    let more = decode_utf8 bytes (partial c (missing - 1) least) in
    if is_continuation b
    then (if leb missing 1
        then (if is_scalar least c then map_option (λ (s : Text). c ∷ s) done else none)
        else more)
    else none

unfoldable pub from_utf8 : List ℕ → Option Text
unfolding decode_utf8
from_utf8 bytes = decode_utf8 bytes ready

char_bytes-injective :
    (c d : ℕ) {s t : List ℕ} → char_bytes c ++ s ≡ char_bytes d ++ t → (c ≡ d) × (s ≡ t)
char_bytes-injective c d {s} {t} h = ground arith

char_bytes-nonempty : (c : ℕ) (s : List ℕ) → char_bytes c ++ s ≢ []
char_bytes-nonempty c s h = ground arith

pub as_bytes-injective : (s t : Text) → as_bytes s ≡ as_bytes t → s ≡ t
unfolding as_bytes
as_bytes-injective [] [] h = refl
as_bytes-injective [] (d ∷ t) h = absurd (char_bytes-nonempty d _ (sym h))
as_bytes-injective (c ∷ s) [] h = absurd (char_bytes-nonempty c _ h)
as_bytes-injective (c ∷ s) (d ∷ t) h =
    let (same, rest) = char_bytes-injective c d h in cc (same, as_bytes-injective s t rest)
