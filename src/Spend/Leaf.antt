-- ===== src/Spend/Leaf.antt =====
-- `check_leaf` of src/spend.rs: the upgrade hooks of tapscript that a mint refuses.
pub mod Instructions
pub mod Reference
use lnurlcash_core.Common.{
  ℕ, zero, suc, ◌+◌, ◌-◌, ◌*◌, ◌%◌, min, Bool, not, ◌&&◌, ◌||◌, List, Option, none, some, leb, ◌==◌,
  if◌then◌else◌, get_elem?, and_then, map_option, length,
}
use lnurlcash_core.Common.Text.{Text, codes}
use lnurlcash_core.Common.Decimal.{max_u64}
use lnurlcash_core.Spend.{tapleaf_version}

abbrev between : ℕ → ℕ → ℕ → Bool
between lo hi n = leb lo n && leb n hi

unfoldable pub is_op_success : ℕ → Bool
is_op_success op =
    op == 80
    || op == 98
    || between 126 129 op
    || between 131 134 op
    || op == 137
    || op == 138
    || op == 141
    || op == 142
    || between 149 153 op
    || between 187 254 op

-- `usize::saturating_add`
abbrev pub saturating_add : ℕ → ℕ → ℕ
saturating_add a b = min (a + b) max_u64

-- So many bytes at an index as a little-endian number, `none` if some are missing.
unfoldable pub le_at : ℕ → List ℕ → ℕ → Option ℕ
le_at zero script i = some 0
le_at (suc width) script i =
    and_then (get_elem? script i)
      λ b. map_option (λ (high : ℕ). b + high * 256) (le_at width script (i + 1))

-- What the `match` on an opcode says: the bytes to skip, the early return of a truncated push, or
-- that of a reserved opcode.
pub data Skip : Type 0 where
  skip : ℕ → Skip
  truncated reserved : Skip

abbrev pub skip_or_end : Option ℕ → Skip
skip_or_end none = truncated
skip_or_end (some n) = skip n

-- The index is that behind the opcode.
unfoldable pub skip_of : List ℕ → ℕ → ℕ → Skip
skip_of script i op =
    if between 1 75 op
    then skip op
    else if op == 0x4c
    then skip_or_end (map_option (λ (n : ℕ). 1 + n) (le_at 1 script i))
    else if op == 0x4d
    then skip_or_end (map_option (λ (n : ℕ). 2 + n) (le_at 2 script i))
    else if op == 0x4e
    then skip_or_end (map_option (saturating_add 4) (le_at 4 script i))
    else if is_op_success op
    then reserved
    else skip 0

abbrev pub reserved_opcode : Text
reserved_opcode = codes "leaf uses a reserved OP_SUCCESS opcode"

-- The loop: each round moves on by a byte at least, so the length of the script is fuel enough.
unfoldable pub walk : ℕ → List ℕ → ℕ → Option Text
walk zero script i = none
walk (suc fuel) script i = elim (get_elem? script i) [
  | none ↦ none
  | some op ↦ elim (skip_of script (i + 1) op) [
    | truncated ↦ none
    | reserved ↦ some reserved_opcode
    | skip n ↦ walk fuel script (saturating_add (i + 1) n)
  ]
]

unfoldable pub check_leaf : ℕ → List ℕ → Option Text
check_leaf leaf_version script =
    if not (leaf_version - leaf_version % 2 == tapleaf_version)
    then some (codes "unknown tapleaf version")
    else walk (length script) script 0
