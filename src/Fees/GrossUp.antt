-- ===== src/Fees/GrossUp.antt =====
-- `gross_up_for_mint_fee` of src/fees.rs: its loops end, and what its answer is worth.
use native.Mathlib.Nat.{two-pow-succ}
use lnurlcash_core.Common.{
  ℕ, zero, suc, ◌+◌, ◌-◌, ◌*◌, ◌/◌, ◌^◌, ◌≤◌, ◌<◌, min, max, ◌≡◌, ap, ◌⊎◌, inl, inr, refl, arith,
  some, ltb, leb, ◌==◌, if◌then◌else◌, Bool-cases, ==_iff, ltb→lt, ltb→le, leb→le, leb→lt, true,
  false,
}
use lnurlcash_core.Common.Decimal.{max_u64}
use lnurlcash_core.Fees.{
  MintFee, apply_mint_fee, Doubling, reached, overflowed, out_of_fuel, double_up, narrow, loop_fuel,
  search, gross_up_for_mint_fee,
}
use lnurlcash_core.Fees.Monotone.{IsBounded, apply_mint_fee_mono}

-- `m` is the smallest amount whose note nets `net`.
pub record IsSmallest (net : ℕ) (fee : MintFee) (m : ℕ) : Type 0 where
  pub fits : m < 2 ^ 64
  pub nets : net ≤ apply_mint_fee m fee
  pub least : (k : ℕ) → k < 2 ^ 64 → net ≤ apply_mint_fee k fee → m ≤ k

module _ (net : ℕ) (fee : MintFee) (bounded : IsBounded fee) where
  IsSmallest-meet :
      {lo hi : ℕ}
      → lo ≡ hi
      → hi < 2 ^ 64
      → net ≤ apply_mint_fee hi fee
      → ((k : ℕ) → k < 2 ^ 64 → net ≤ apply_mint_fee k fee → lo ≤ k)
      → IsSmallest net fee lo
  IsSmallest-meet {lo} e fits nets least = record {
    fits = omega arith;
    nets = rw e nets;
    least = least;
  }

  abbrev middle : ℕ → ℕ → ℕ
  middle lo hi = lo + (hi - lo) / 2

  -- An amount above which something nets `net`, where `mid` does not, lies above `mid`.
  least-above :
      (mid : ℕ)
      → mid < 2 ^ 64
      → leb net (apply_mint_fee mid fee) ≡ false
      → (k : ℕ) → k < 2 ^ 64
      → net ≤ apply_mint_fee k fee
      → mid + 1 ≤ k
  least-above mid fits short k small nets = elim (Bool-cases (leb k mid)) [
    | inl low ↦ absurd (
        omega (
          arith,
          leb→le k mid low,
          leb→lt net (apply_mint_fee mid fee) short,
          apply_mint_fee_mono k mid fee bounded (leb→le k mid low) fits,
        ))
    | inr high ↦ omega (arith, leb→lt k mid high)
  ]

  -- One round of the search, as the code has it.
  narrow_step :
      (f lo hi : ℕ)
      → narrow (suc f) net fee lo hi ≡ (
          if ltb lo hi
          then (if leb net (apply_mint_fee (middle lo hi) fee)
              then narrow f net fee lo (middle lo hi)
              else narrow f net fee (middle lo hi + 1) hi)
          else some lo)
  unfolding narrow
  narrow_step f lo hi = refl

  -- The invariant of the search: `lo` is no larger than any amount that nets `net`, and `hi` is one.
  narrow_lem :
      (f lo hi : ℕ)
      → lo ≤ hi
      → hi - lo < 2 ^ f
      → hi < 2 ^ 64
      → net ≤ apply_mint_fee hi fee
      → ((k : ℕ) → k < 2 ^ 64 → net ≤ apply_mint_fee k fee → lo ≤ k)
      → (m : ℕ) × (narrow (suc f) net fee lo hi ≡ some m) × IsSmallest net fee m
  narrow_lem zero lo hi ordered small fits nets least =
      (lo, unfold narrow in ground arith, IsSmallest-meet (omega arith) fits nets least)
  narrow_lem (suc f) lo hi ordered small fits nets least =
      let pow = two-pow-succ f in
      elim (Bool-cases (ltb lo hi)) [
        | inr done ↦
            rw (narrow_step, done)
              (lo, refl, IsSmallest-meet (omega (arith, ltb→le lo hi done)) fits nets least)
        | inl more ↦ elim (Bool-cases (leb net (apply_mint_fee (middle lo hi) fee))) [
          | inl enough ↦
              rw (narrow_step, more, enough)
                (narrow_lem f lo (middle lo hi) (omega arith)
                  (omega (arith, pow, ltb→lt lo hi more)) (omega arith) (leb→le net _ enough) least)
          | inr short ↦
              rw (narrow_step, more, short)
                (narrow_lem f (middle lo hi + 1) hi (omega (arith, ltb→lt lo hi more))
                  (omega (arith, pow, ltb→lt lo hi more)) fits nets
                  (least-above (middle lo hi) (omega arith) short))
        ]
      ]

  -- What is known when the doubling ends. It never runs out of fuel.
  abbrev Doubled : Doubling → Type 0
  Doubled (reached hi) = (hi < 2 ^ 64) × (net ≤ apply_mint_fee hi fee)
  Doubled overflowed = (k : ℕ) → k ≤ 2 ^ 63 → apply_mint_fee k fee < net
  Doubled out_of_fuel = ⊥

  double_up_step :
      (f hi : ℕ)
      → double_up (suc f) net fee hi ≡ (
          if ltb (apply_mint_fee hi fee) net
          then (if leb (hi * 2) max_u64 then double_up f net fee (hi * 2) else overflowed)
          else reached hi)
  unfolding double_up
  double_up_step f hi = refl

  double_up_lem :
      (f hi : ℕ) → hi < 2 ^ 64 → 2 ^ 64 ≤ hi * 2 ^ f → Doubled (double_up (suc f) net fee hi)
  double_up_lem zero hi fits enough = absurd (omega arith)
  double_up_lem (suc f) hi fits enough = elim (Bool-cases (ltb (apply_mint_fee hi fee) net)) [
    | inr done ↦ rw (double_up_step, done) (fits, ltb→le _ net done)
    | inl short ↦ elim (Bool-cases (leb (hi * 2) max_u64)) [
      | inl room ↦
          rw (double_up_step, short, room)
            (double_up_lem f (hi * 2) (omega (arith, leb→le (hi * 2) max_u64 room))
              (omega (arith, ap (λ (t : ℕ). hi * t) (two-pow-succ f))))
      | inr full ↦
          rw (double_up_step, short, full)
            λ k small. omega (
              arith,
              leb→lt (hi * 2) max_u64 full,
              ltb→lt _ net short,
              apply_mint_fee_mono k hi fee bounded,
            )
    ]
  ]

  -- What the answer of the search is worth.
  abbrev pub IsAnswer : ℕ → Type 0
  IsAnswer m =
      IsSmallest net fee m ⊎ ((m ≡ max_u64) × ((k : ℕ) → k ≤ 2 ^ 63 → apply_mint_fee k fee < net))

  search_lem : (d : Doubling) → Doubled d → (m : ℕ) × (search net fee d ≡ some m) × IsAnswer m
  search_lem (reached hi) (fits, nets) =
      let (m, found, smallest) =
        narrow_lem 64 0 hi (omega arith) (omega arith) fits nets (λ k _ _. omega arith) in
      (m, found, inl smallest)
  search_lem overflowed short = (max_u64, refl, inr (refl, short))
  search_lem out_of_fuel short = elim short [ ]

  abbrev start : ℕ
  start = max (min (net + fee.base_fee_msat) max_u64) 1

  gross_up_step :
      gross_up_for_mint_fee net fee
      ≡ (if net == 0 then some 0 else search net fee (double_up loop_fuel net fee start))
  unfolding gross_up_for_mint_fee
  gross_up_step = refl

  -- Both loops end for every amount, if the rate is below one million, and the answer is the smallest invoice amount whose note nets
  -- `net`, or it is `u64::MAX` and no amount up to 2 ^ 63 nets `net`.
  pub gross_up_total : (m : ℕ) × (gross_up_for_mint_fee net fee ≡ some m) × IsAnswer m
  gross_up_total = elim (Bool-cases (net == 0)) [
    | inl free ↦
        rw (gross_up_step, free)
          (
            0,
            refl,
            inl (record {
              fits = omega arith;
              nets = omega (arith, (==_iff net 0).0 free);
              least = λ k _ _. omega arith;
            }),
          )
    | inr owed ↦
        rw (gross_up_step, owed) (search_lem _ (double_up_lem 64 start (omega arith) (omega arith)))
  ]

  -- If the rate is below one million and some amount up to 2 ^ 63 msat nets `net`, then the answer is
  -- the smallest one that does.
  pub gross_up-IsSmallest :
      (g : ℕ)
      → g ≤ 2 ^ 63
      → net ≤ apply_mint_fee g fee
      → (m : ℕ) × (gross_up_for_mint_fee net fee ≡ some m) × IsSmallest net fee m
  gross_up-IsSmallest g small nets =
      let (m, found, answer) = gross_up_total in
      (
        m,
        found,
        elim answer [
          | inl smallest ↦ smallest
          | inr (_, short) ↦ absurd (omega (arith, short g small))
        ],
      )

  -- Where the first guess is a `u64` of at least 2 ^ 63 and nets too little, the rate being below one
  -- million, the answer is `u64::MAX`, which is
  -- not the smallest amount if a smaller one nets `net`.
  pub gross_up_gives_up :
      (g : ℕ)
      → 2 ^ 63 ≤ net + fee.base_fee_msat
      → net + fee.base_fee_msat < 2 ^ 64
      → apply_mint_fee (net + fee.base_fee_msat) fee < net
      → g < max_u64
      → net ≤ apply_mint_fee g fee
      → (gross_up_for_mint_fee net fee ≡ some max_u64) × ¬ IsSmallest net fee max_u64
  gross_up_gives_up g large fits short below nets =
      let guess = net + fee.base_fee_msat in
      let owed : (net == 0) ≡ false = ground arith in
      let first : start ≡ guess = omega arith in
      let less : ltb (apply_mint_fee guess fee) net ≡ true = ground arith in
      let full : leb (guess * 2) max_u64 ≡ false = ground arith in
      (
        rw (gross_up_step, owed, first, double_up_step 64 guess, less, full) refl,
        λ h. omega (arith, h.least g (omega arith) nets),
      )
