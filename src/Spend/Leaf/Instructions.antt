-- ===== src/Spend/Leaf/Instructions.antt =====
-- The instructions of a script, as BIP-342 reads them, and what `check_leaf` of src/spend.rs skips.
use lnurlcash_core.Common.{
  Bool, ◌≢◌, map_option, ℕ, zero, suc, ◌+◌, ◌≤◌, ◌<◌, false, true, List, [], ◌∷◌, Option, none,
  some, ◌≡◌, ◌⊎◌, inl, inr, refl, sym, ◌∙◌, subst, arith, length, get_elem?, leb, if◌then◌else◌,
  Bool-cases, ◌==◌,
}
use lnurlcash_core.Common.Decimal.{max_u64}
use lnurlcash_core.Spend.Leaf.{
  skip_or_end, is_op_success, saturating_add, le_at, skip, reserved, skip_of,
}

-- The bytes that an opcode at an index pushes, with those that say how many they are.
pub data Pushes (script : List ℕ) (i : ℕ) : ℕ → ℕ → Type 0 where
  direct : {op : ℕ} → 1 ≤ op → op ≤ 75 → Pushes script i op op
  pushdata1 : {n : ℕ} → le_at 1 script (i + 1) ≡ some n → Pushes script i 76 (1 + n)
  pushdata2 : {n : ℕ} → le_at 2 script (i + 1) ≡ some n → Pushes script i 77 (2 + n)
  pushdata4 : {n : ℕ} → le_at 4 script (i + 1) ≡ some n → Pushes script i 78 (4 + n)
  opcode : {op : ℕ} → (op ≡ 0) ⊎ (79 ≤ op) → Pushes script i op 0

-- The instructions that are met from an index on.
pub data Meets (script : List ℕ) : ℕ → ℕ → Type 0 where
  here : {i : ℕ} → Meets script i i
  later :
      {i op n k : ℕ}
      → get_elem? script i ≡ some op
      → Pushes script i op n
      → i + 1 + n < length script
      → Meets script (i + 1 + n) k
      → Meets script i k

pub get_elem?-beyond : (script : List ℕ) (i : ℕ) → length script ≤ i → get_elem? script i ≡ none
get_elem?-beyond [] i h = refl
get_elem?-beyond (b ∷ script) zero h = absurd (omega arith)
get_elem?-beyond (b ∷ script) (suc i) h = get_elem?-beyond script i (omega arith)

pub get_elem?-within :
    (script : List ℕ) (i : ℕ) {op : ℕ} → get_elem? script i ≡ some op → i < length script
get_elem?-within [] i h = cc
get_elem?-within (b ∷ script) zero h = omega arith
get_elem?-within (b ∷ script) (suc i) h = omega (arith, get_elem?-within script i h)

pub data Kind : ℕ → Type 0 where
  is_direct : {op : ℕ} → 1 ≤ op → op ≤ 75 → Kind op
  is_pushdata1 : Kind 76
  is_pushdata2 : Kind 77
  is_pushdata4 : Kind 78
  is_opcode : {op : ℕ} → (op ≡ 0) ⊎ (79 ≤ op) → Kind op

the_op : (k op : ℕ) → op ≤ k → k ≤ op → k ≡ op
the_op k op h1 h2 = omega arith

pub Kind-cases : (op : ℕ) → Kind op
Kind-cases op = elim (Bool-cases (leb op 75)) [
  | inl low ↦ elim (Bool-cases (op == 0)) [
    | inl none_pushed ↦ is_opcode (inl (ground arith))
    | inr pushed ↦ is_direct (ground arith) (ground arith)
  ]
  | inr high ↦ elim (Bool-cases (leb op 76)) [
    | inl low1 ↦ subst Kind (the_op 76 op (ground arith) (ground arith)) is_pushdata1
    | inr high1 ↦ elim (Bool-cases (leb op 77)) [
      | inl low2 ↦ subst Kind (the_op 77 op (ground arith) (ground arith)) is_pushdata2
      | inr high2 ↦ elim (Bool-cases (leb op 78)) [
        | inl low3 ↦ subst Kind (the_op 78 op (ground arith) (ground arith)) is_pushdata4
        | inr high3 ↦ is_opcode (inr (ground arith))
      ]
    ]
  ]
]

skip_of-direct : (script : List ℕ) (i op : ℕ) → 1 ≤ op → op ≤ 75 → skip_of script i op ≡ skip op
unfolding skip_of
skip_of-direct script i op h1 h2 = ground arith

skip_of-opcode :
    (script : List ℕ) (i op : ℕ)
    → (op ≡ 0) ⊎ (79 ≤ op)
    → skip_of script i op ≡ (if is_op_success op then reserved else skip 0)
unfolding skip_of
skip_of-opcode script i op h = ground arith

is_op_success-pushes : (op : ℕ) → 1 ≤ op → op ≤ 78 → is_op_success op ≡ false
unfolding is_op_success
is_op_success-pushes op h1 h2 = ground arith

-- The skip of the code, whose sum is cut off at the largest `usize`, for that of an instruction.
abbrev pub Same : ℕ → ℕ → Type 0
Same n m = (n ≡ m) ⊎ ((max_u64 ≤ n) × (max_u64 ≤ m))

saturating_add-Same : (a n : ℕ) → Same (saturating_add a n) (a + n)
saturating_add-Same a n = ground arith

skip-injective : {n m : ℕ} → skip n ≡ skip m → n ≡ m
skip-injective h = cc h

reserved-skip : {b : Bool} {n : ℕ} → (if b then reserved else skip 0) ≡ skip n → b ≢ true
reserved-skip {b} {n} h e = cc (subst (λ t. (if t then reserved else skip 0) ≡ skip n) e h)

skip-plain : {b : Bool} {n : ℕ} → (if b then reserved else skip 0) ≡ skip n → b ≡ false → n ≡ 0
skip-plain {b} {n} h e =
    sym (skip-injective (subst (λ t. (if t then reserved else skip 0) ≡ skip n) e h))

pub record Pushed (script : List ℕ) (i op n : ℕ) : Type 0 where
  pub plain : is_op_success op ≡ false
  pub bytes : ℕ
  pub pushes : Pushes script i op bytes
  pub same : Same n bytes

skip_or_end-eq-skip :
    (f : ℕ → ℕ) (o : Option ℕ) {n : ℕ}
    → skip_or_end (map_option f o) ≡ skip n
    → (m : ℕ) × (o ≡ some m) × (n ≡ f m)
skip_or_end-eq-skip f none h = cc
skip_or_end-eq-skip f (some m) h = (m, refl, sym (skip-injective h))

pub skip_of-Pushed :
    (script : List ℕ) (i n : ℕ) {op : ℕ}
    → Kind op
    → skip_of script (i + 1) op ≡ skip n
    → Pushed script i op n
unfolding skip_of
skip_of-Pushed script i n {op} (is_direct h1 h2) h = record {
  plain = is_op_success-pushes op h1 (omega arith);
  bytes = op;
  pushes = direct h1 h2;
  same = inl (sym (skip-injective (sym (skip_of-direct script (i + 1) op h1 h2) ∙ h)));
}
skip_of-Pushed script i n is_pushdata1 h =
    let (m, read, e) = skip_or_end-eq-skip _ (le_at 1 script (i + 1)) h in
    record {
      plain = is_op_success-pushes 76 (omega arith) (omega arith);
      bytes = 1 + m;
      pushes = pushdata1 read;
      same = inl e;
    }
skip_of-Pushed script i n is_pushdata2 h =
    let (m, read, e) = skip_or_end-eq-skip _ (le_at 2 script (i + 1)) h in
    record {
      plain = is_op_success-pushes 77 (omega arith) (omega arith);
      bytes = 2 + m;
      pushes = pushdata2 read;
      same = inl e;
    }
skip_of-Pushed script i n is_pushdata4 h =
    let (m, read, e) = skip_or_end-eq-skip _ (le_at 4 script (i + 1)) h in
    record {
      plain = is_op_success-pushes 78 (omega arith) (omega arith);
      bytes = 4 + m;
      pushes = pushdata4 read;
      same = subst (λ (t : ℕ). Same t (4 + m)) (sym e) (saturating_add-Same 4 m);
    }
skip_of-Pushed script i n {op} (is_opcode free) h = elim (Bool-cases (is_op_success op)) [
  | inl success ↦ absurd (reserved-skip (sym (skip_of-opcode script (i + 1) op free) ∙ h) success)
  | inr plain ↦ record {
    plain = plain;
    bytes = 0;
    pushes = opcode free;
    same = inl (skip-plain (sym (skip_of-opcode script (i + 1) op free) ∙ h) plain);
  }
]

-- An instruction that pushes is skipped as the code does, unless its opcode is a reserved one.
pub record Skipped (script : List ℕ) (i op m : ℕ) : Type 0 where
  pub bytes : ℕ
  pub skips : skip_of script (i + 1) op ≡ skip bytes
  pub same : Same bytes m

pub Pushes-Skipped :
    (script : List ℕ) (i m : ℕ) {op : ℕ}
    → Pushes script i op m
    → is_op_success op ≡ false
    → Skipped script i op m
unfolding skip_of
Pushes-Skipped script i m {op} (direct h1 h2) plain = record {
  bytes = op;
  skips = skip_of-direct script (i + 1) op h1 h2;
  same = inl refl;
}
Pushes-Skipped script i m (pushdata1 {n} read) plain = record {
  bytes = 1 + n;
  skips = rw read refl;
  same = inl refl;
}
Pushes-Skipped script i m (pushdata2 {n} read) plain = record {
  bytes = 2 + n;
  skips = rw read refl;
  same = inl refl;
}
Pushes-Skipped script i m (pushdata4 {n} read) plain = record {
  bytes = saturating_add 4 n;
  skips = rw read refl;
  same = saturating_add-Same 4 n;
}
Pushes-Skipped script i m {op} (opcode free) plain = record {
  bytes = 0;
  skips = skip_of-opcode script (i + 1) op free ∙ rw plain refl;
  same = inl refl;
}

-- The loop stops at an opcode as at a reserved one exactly if it is one.
pub plain-of-unreserved :
    (script : List ℕ) (i : ℕ) {op : ℕ}
    → Kind op
    → skip_of script (i + 1) op ≢ reserved
    → is_op_success op ≡ false
plain-of-unreserved script i {op} (is_direct h1 h2) h = is_op_success-pushes op h1 (omega arith)
plain-of-unreserved script i is_pushdata1 h = is_op_success-pushes 76 (omega arith) (omega arith)
plain-of-unreserved script i is_pushdata2 h = is_op_success-pushes 77 (omega arith) (omega arith)
plain-of-unreserved script i is_pushdata4 h = is_op_success-pushes 78 (omega arith) (omega arith)
plain-of-unreserved script i {op} (is_opcode free) h = elim (Bool-cases (is_op_success op)) [
  | inl success ↦ absurd (h (skip_of-opcode script (i + 1) op free ∙ rw success refl))
  | inr plain ↦ plain
]

skip_or_end-unreserved : (o : Option ℕ) → skip_or_end o ≢ reserved
skip_or_end-unreserved none h = cc
skip_or_end-unreserved (some n) h = cc

if-unreserved : {b : Bool} → b ≡ false → (if b then reserved else skip 0) ≢ reserved
if-unreserved {b} plain h = cc (subst (λ t. (if t then reserved else skip 0) ≡ reserved) plain h)

pub unreserved-of-plain :
    (script : List ℕ) (i : ℕ) {op : ℕ}
    → Kind op
    → is_op_success op ≡ false
    → skip_of script (i + 1) op ≢ reserved
unfolding skip_of
unreserved-of-plain script i {op} (is_direct h1 h2) plain h =
    cc (skip_of-direct script (i + 1) op h1 h2, h)
unreserved-of-plain script i is_pushdata1 plain h = skip_or_end-unreserved _ h
unreserved-of-plain script i is_pushdata2 plain h = skip_or_end-unreserved _ h
unreserved-of-plain script i is_pushdata4 plain h = skip_or_end-unreserved _ h
unreserved-of-plain script i {op} (is_opcode free) plain h =
    if-unreserved plain (sym (skip_of-opcode script (i + 1) op free) ∙ h)
