-- ===== src/Examples/Recoverable.antt =====
-- The theorems on src/recoverable.rs at concrete amounts and paths.
use lnurlcash_core.Common.{[], ◌∷◌, some, ◌≡◌, refl, arith}
use lnurlcash_core.Recoverable.{encode_amount_suffix, decode_amount_suffix}
use lnurlcash_core.Recoverable.Amount.{decode_amount_suffix-encode_amount_suffix}
use lnurlcash_core.Recoverable.Path.{NotePath, share, below_hardened, middle_of, indices}
use lnurlcash_core.Recoverable.Path.Injective.{indices-injective}

decode_amount_suffix-encode_amount_suffix_example :
    decode_amount_suffix (encode_amount_suffix 2_500_001) ≡ some 2_500_001
decode_amount_suffix-encode_amount_suffix_example =
    decode_amount_suffix-encode_amount_suffix 2_500_001 (omega arith)

abbrev third_note : NotePath
third_note = share 1 2 3

indices-injective_example : third_note ≡ third_note
unfolding indices middle_of below_hardened
indices-injective_example =
    indices-injective third_note third_note (0x80000001 ∷ 2 ∷ 0x80000002 ∷ 3 ∷ []) refl refl
