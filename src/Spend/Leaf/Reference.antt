-- ===== src/Spend/Leaf/Reference.antt =====
-- `check_leaf` of src/spend.rs against the instructions of a script.
use lnurlcash_core.Common.{
  ℕ, zero, suc, ◌+◌, ◌-◌, ◌%◌, ◌≤◌, ◌<◌, false, List, Option, none, some, ◌≡◌, ◌↔◌, inl, inr, refl,
  ◌==◌, ==_iff, sym, subst, arith, length, get_elem?, ltb, Bool-cases, ◌⊎◌, ◌∙◌, Option-cases,
  ltb→lt, ltb→le,
}
use lnurlcash_core.Common.Text.{Text}
use lnurlcash_core.Common.Decimal.{max_u64}
use lnurlcash_core.Spend.{tapleaf_version}
use lnurlcash_core.Spend.Leaf.{
  is_op_success, saturating_add, Skip, skip, truncated, reserved, skip_of, reserved_opcode, walk,
  check_leaf,
}
use lnurlcash_core.Spend.Leaf.Instructions.{
  Meets, here, later, get_elem?-beyond, get_elem?-within, Kind-cases, Same, skip_of-Pushed,
  Pushes-Skipped, plain-of-unreserved, unreserved-of-plain,
}

-- No opcode that is met from an index on is a reserved one.
abbrev pub IsClean : List ℕ → ℕ → Type 0
IsClean script i =
    (k op : ℕ) → Meets script i k → get_elem? script k ≡ some op → is_op_success op ≡ false

Skip-cases : (s : Skip) → (s ≡ truncated) ⊎ (s ≡ reserved) ⊎ ((n : ℕ) × (s ≡ skip n))
Skip-cases truncated = inl refl
Skip-cases reserved = inr (inl refl)
Skip-cases (skip n) = inr (inr (n, refl))

abbrev pub round : ℕ → List ℕ → ℕ → Skip → Option Text
round fuel script i truncated = none
round fuel script i reserved = some reserved_opcode
round fuel script i (skip n) = walk fuel script (saturating_add (i + 1) n)

-- One round of the loop.
module _ (fuel : ℕ) (script : List ℕ) (i : ℕ) where
  pub walk_ended : get_elem? script i ≡ none → walk (suc fuel) script i ≡ none
  unfolding walk
  walk_ended h = rw (walk, h) refl

  pub walk_on :
      {op : ℕ} (s : Skip)
      → get_elem? script i ≡ some op
      → skip_of script (i + 1) op ≡ s
      → walk (suc fuel) script i ≡ round fuel script i s
  unfolding walk
  walk_on s at h = rw (walk, at, h) refl

module _ (script : List ℕ) (small : length script ≤ max_u64) where
  walk-beyond : (fuel i : ℕ) → length script ≤ i → walk fuel script i ≡ none
  unfolding walk
  walk-beyond zero i h = refl
  walk-beyond (suc fuel) i h = walk_ended fuel script i (get_elem?-beyond script i h)

  landing :
      (i n m : ℕ) → Same n m → i + 1 + m < length script → saturating_add (i + 1) n ≡ i + 1 + m
  landing i n m same h = ground arith

  overshoot :
      (i n m : ℕ) → Same n m → length script ≤ i + 1 + m → length script ≤ saturating_add (i + 1) n
  overshoot i n m same h = ground arith

  met_plain :
      (fuel i : ℕ) {op : ℕ}
      → walk (suc fuel) script i ≡ none
      → get_elem? script i ≡ some op
      → is_op_success op ≡ false
  met_plain fuel i {op} h at =
      plain-of-unreserved script i (Kind-cases op)
        (λ success. cc (walk_on fuel script i reserved at success, h))

  -- The loop has fuel for all the bytes that are left, and finds nothing reserved among them.
  walk-IsClean :
      (fuel i k op : ℕ)
      → length script ≤ i + fuel
      → walk fuel script i ≡ none
      → Meets script i k
      → get_elem? script k ≡ some op
      → is_op_success op ≡ false
  walk-IsClean zero i k op enough h here at = absurd (omega (arith, get_elem?-within script i at))
  walk-IsClean zero i k op enough h (later at1 pushes inside meets) at =
      absurd (omega (arith, get_elem?-within script i at1))
  walk-IsClean (suc fuel) i k op enough h here at = met_plain fuel i h at
  walk-IsClean (suc fuel) i k op enough h (later {n = m} at1 pushes inside meets) at =
      let skipped = Pushes-Skipped script i m pushes (met_plain fuel i h at1) in
      let lands = landing i skipped.bytes m skipped.same inside in
      let rest : walk fuel script (i + 1 + m) ≡ none =
        subst (λ j. walk fuel script j ≡ none) lands
          (sym (walk_on fuel script i (skip skipped.bytes) at1 skipped.skips) ∙ h) in
      walk-IsClean fuel (i + 1 + m) k op (omega arith) rest meets at

  IsClean-walk : (fuel i : ℕ) → IsClean script i → walk fuel script i ≡ none
  unfolding walk
  IsClean-walk zero i clean = refl
  IsClean-walk (suc fuel) i clean = elim (Option-cases (get_elem? script i)) [
    | inl ended ↦ walk_ended fuel script i ended
    | inr (op, at) ↦ elim (Skip-cases (skip_of script (i + 1) op)) [
      | inl cut ↦ walk_on fuel script i truncated at cut
      | inr (inl success) ↦
          absurd (unreserved-of-plain script i (Kind-cases op) (clean i op here at) success)
      | inr (inr (n, skips)) ↦
          let pushed = skip_of-Pushed script i n (Kind-cases op) skips in
          walk_on fuel script i (skip n) at skips
          ∙ elim (Bool-cases (ltb (i + 1 + pushed.bytes) (length script))) [
            | inl inside ↦
                let lands = landing i n pushed.bytes pushed.same (ltb→lt _ _ inside) in
                rw lands (
                  IsClean-walk fuel (i + 1 + pushed.bytes)
                    (λ k op1 meets. clean k op1 (later at pushed.pushes (ltb→lt _ _ inside) meets)))
            | inr outside ↦
                walk-beyond fuel _ (overshoot i n pushed.bytes pushed.same (ltb→le _ _ outside))
          ]
    ]
  ]

-- A script that fits in memory passes exactly if its leaf version is 0xc0 and no opcode that its
-- instructions lead to from the first byte on is an `OP_SUCCESSx`, pushed data left aside.
pub check_leaf-IsClean :
    (leaf_version : ℕ) (script : List ℕ)
    → length script ≤ max_u64
    → (check_leaf leaf_version script ≡ none)
      ↔ (leaf_version - leaf_version % 2 ≡ tapleaf_version) × IsClean script 0
unfolding check_leaf
check_leaf-IsClean leaf_version script small =
    elim (Bool-cases (leaf_version - leaf_version % 2 == tapleaf_version)) [
      | inl known ↦ rw known (
        λ h. (
          (==_iff _ _).0 known,
          λ k op. walk-IsClean script small (length script) 0 k op (omega arith) h,
        ),
        λ h. IsClean-walk script small (length script) 0 h.1,
      )
      | inr unknown ↦ rw unknown (λ h. cc, λ h. cc ((==_iff _ _).1 h.0, unknown))
    ]
