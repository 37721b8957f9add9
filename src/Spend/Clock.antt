-- ===== src/Spend/Clock.antt =====
-- `check_time_claim` of src/spend.rs: a script path's time claim against a mint's clock.
use lnurlcash_core.Common.{
  ℕ, ◌+◌, ◌-◌, ◌*◌, ◌/◌, ◌%◌, ◌^◌, ◌≤◌, ◌<◌, Bool, not, ◌&&◌, ◌++◌, Option, none, some, ◌≡◌, ◌↔◌,
  ◌⊎◌, inl, inr, arith, ltb, ◌==◌, if◌then◌else◌, Bool-cases,
}
use lnurlcash_core.Common.Text.{Text, codes}
use lnurlcash_core.Common.Decimal.{decimal}

abbrev pub locktime_threshold : ℕ
locktime_threshold = 500_000_000

abbrev pub sequence_granularity_seconds : ℕ
sequence_granularity_seconds = 512

-- `sequence & SEQUENCE_DISABLE_FLAG != 0`, `sequence & SEQUENCE_TYPE_FLAG != 0`
abbrev pub is_disabled : ℕ → Bool
is_disabled sequence = sequence / 2_147_483_648 % 2 == 1

abbrev pub is_seconds : ℕ → Bool
is_seconds sequence = sequence / 4_194_304 % 2 == 1

abbrev pub required_of : ℕ → ℕ
required_of sequence = sequence % 65_536 * sequence_granularity_seconds

-- An `i64` is its 64 bits: the difference of two, as the processor has it, and `<`.
abbrev pub sub_i64 : ℕ → ℕ → ℕ
sub_i64 a b = (a + 2 ^ 64 - b) % 2 ^ 64

abbrev pub lt_i64 : ℕ → ℕ → Bool
lt_i64 a b = ltb ((a + 2 ^ 63) % 2 ^ 64) ((b + 2 ^ 63) % 2 ^ 64)

abbrev pub relative_lock : ℕ → ℕ → ℕ → Option Text
relative_lock sequence now locked_at =
    if is_disabled sequence
    then none
    else if not (is_seconds sequence)
    then some (codes "block-count relative locks have no meaning without a chain")
    else if lt_i64 (sub_i64 now locked_at) (required_of sequence)
    then some (
        codes "relative lock of "
        ++ (decimal (required_of sequence) ++ codes "s not yet satisfied"))
    else none

unfoldable pub check_time_claim : ℕ → ℕ → ℕ → ℕ → Option Text
check_time_claim locktime sequence now locked_at =
    if not (locktime == 0) && ltb locktime locktime_threshold
    then some (codes "block-height locktimes have no meaning without a chain")
    else if not (locktime == 0) && ltb now locktime
    then some (codes "locktime " ++ (decimal locktime ++ codes " is in the future"))
    else relative_lock sequence now locked_at

-- What a claim that is due says: an absolute lock in seconds that has passed, if there is one, and
-- a relative one that has, if there is one.
pub record IsDue (locktime sequence now locked_at : ℕ) : Type 0 where
  pub absolute : (locktime ≡ 0) ⊎ ((locktime_threshold ≤ locktime) × (locktime ≤ now))
  pub relative :
      (2 ^ 31 ≤ sequence)
      ⊎ ((sequence / 2 ^ 22 % 2 ≡ 1) × (locked_at + 512 * (sequence % 2 ^ 16) ≤ now))

lt_i64-sub_i64 :
    (a b c : ℕ) → a < 2 ^ 63 → b < 2 ^ 63 → c < 2 ^ 32 → lt_i64 (sub_i64 a b) c ≡ ltb a (b + c)
lt_i64-sub_i64 a b c ha hb hc = ground arith

relative_lock_iff :
    (sequence now locked_at : ℕ)
    → sequence < 2 ^ 32
    → now < 2 ^ 63
    → locked_at < 2 ^ 63
    → (relative_lock sequence now locked_at ≡ none)
      ↔ (2 ^ 31 ≤ sequence)
        ⊎ ((sequence / 2 ^ 22 % 2 ≡ 1) × (locked_at + 512 * (sequence % 2 ^ 16) ≤ now))
relative_lock_iff sequence now locked_at hs hn hl =
    rw (lt_i64-sub_i64 now locked_at (required_of sequence) hn hl (omega arith)) (ground arith)

-- For a sequence number of 32 bits and where the clock and the time of the credit are both below
-- 2 ^ 63 seconds, a claim passes exactly if its locks are in seconds and have run out.
pub check_time_claim-IsDue :
    (locktime sequence now locked_at : ℕ)
    → sequence < 2 ^ 32
    → now < 2 ^ 63
    → locked_at < 2 ^ 63
    → (check_time_claim locktime sequence now locked_at ≡ none)
      ↔ IsDue locktime sequence now locked_at
unfolding check_time_claim
check_time_claim-IsDue locktime sequence now locked_at hs hn hl =
    let (sound, complete) = relative_lock_iff sequence now locked_at hs hn hl in
    (
      λ h. elim (Bool-cases (locktime == 0)) [
        | inl free ↦ record { absolute = inl (ground arith); relative = sound (ground arith) }
        | inr locked ↦ record { absolute = inr (ground arith); relative = sound (ground arith) }
      ],
      λ due.
          let rest = complete due.relative in
          let absolute = due.absolute in rw (rest) (ground arith),
    )
