-- ===== src/Recoverable/Cw1/RoundTrip.antt =====
-- The payload of a `cw1` of src/recoverable.rs, written and read.
use lnurlcash_core.Common.{
  ℕ, zero, suc, ◌+◌, ◌*◌, ◌/◌, ◌%◌, ◌≤◌, ◌<◌, ◌^◌, List, [], ◌∷◌, ◌++◌, Option, some, ◌≡◌, refl,
  sym, ap, ◌∙◌, subst, arith, length, length-append, ok, >>=-eq-ok, ok-injective,
}
use lnurlcash_core.Errors.{Result}
use lnurlcash_core.Recoverable.Cw1.{
  Cw1, u32_of, item_bytes, items_bytes, cw1_payload, take_bytes, read_items, output_key,
  cw1_of_items, cw1_of_payload,
}

pub take_bytes-append :
    (item rest : List ℕ) → take_bytes (length item) (item ++ rest) ≡ some (item, rest)
unfolding take_bytes
take_bytes-append [] rest = refl
take_bytes-append (b ∷ item) rest = rw (take_bytes-append item rest) refl

item_bytes-eq-ok :
    (item bytes : List ℕ)
    → item_bytes item ≡ ok bytes
    → bytes ≡ (length item / 256) ∷ (length item % 256) ∷ item
unfolding item_bytes
item_bytes-eq-ok item bytes h = ground arith

read_one :
    (fuel : ℕ) (item rest : List ℕ) (items : List (List ℕ))
    → read_items fuel rest ≡ some items
    → read_items (suc fuel) ((length item / 256) ∷ (length item % 256) ∷ (item ++ rest))
      ≡ some (item ∷ items)
unfolding read_items
read_one fuel item rest items h =
    let size : length item / 256 * 256 + length item % 256 ≡ length item = omega arith in
    rw (size, take_bytes-append item rest, h) refl

-- What is written of a first item and of those behind it.
abbrev framed : List ℕ → List ℕ → List ℕ
framed item rest = (length item / 256) ∷ (length item % 256) ∷ (item ++ rest)

items_bytes-eq-ok :
    (item : List ℕ) (items : List (List ℕ)) (bytes : List ℕ)
    → items_bytes (item ∷ items) ≡ ok bytes
    → (rest : List ℕ) × (items_bytes items ≡ ok rest) × (bytes ≡ framed item rest)
unfolding items_bytes
items_bytes-eq-ok item items bytes h =
    let (one, written, h1) = >>=-eq-ok (item_bytes item) _ h in
    let (rest, others, h2) = >>=-eq-ok (items_bytes items) _ h1 in
    (
      rest,
      others,
      sym (ok-injective h2) ∙ ap (λ (t : List ℕ). t ++ rest) (item_bytes-eq-ok item one written),
    )

length-framed : (item rest : List ℕ) → length (framed item rest) ≡ length item + length rest + 2
length-framed item rest = omega (arith, length-append item rest)

read_none : (fuel : ℕ) → read_items fuel [] ≡ some []
unfolding read_items
read_none zero = refl
read_none (suc fuel) = refl

-- Items that are written read back, with any fuel from the length of what was written on.
read_items-items_bytes :
    (items : List (List ℕ)) (bytes : List ℕ) (fuel : ℕ)
    → items_bytes items ≡ ok bytes
    → length bytes ≤ fuel
    → read_items fuel bytes ≡ some items
read_items-items_bytes [] bytes fuel h enough =
    let empty : ◌≡◌ {A = Result (List ℕ)} (ok []) (ok bytes) = unfold items_bytes in h in
    subst (λ (t : List ℕ). read_items fuel t ≡ some []) (ok-injective empty) (read_none fuel)
read_items-items_bytes (item ∷ items) bytes zero h enough =
    let (rest, _, shape) = items_bytes-eq-ok item items bytes h in
    absurd (omega (arith, ap length shape, length-framed item rest))
read_items-items_bytes (item ∷ items) bytes (suc fuel) h enough =
    let (rest, others, shape) = items_bytes-eq-ok item items bytes h in
    let shorter : length rest ≤ fuel = omega (arith, ap length shape, length-framed item rest) in
    subst (λ (t : List ℕ). read_items (suc fuel) t ≡ some (item ∷ items)) (sym shape)
      (read_one fuel item rest items (read_items-items_bytes items rest fuel others shorter))

u32_of-u32_bytes :
    (n : ℕ)
    → n < 2 ^ 32
    → u32_of (n / 16_777_216 % 256) (n / 65_536 % 256) (n / 256 % 256) (n % 256) ≡ n
u32_of-u32_bytes n h = omega arith

module _ (output_key_of : List ℕ → List ℕ → Option (List ℕ)) where
  -- A spend whose times are a `u32` and whose control block commits to a key reads back from the
  -- payload that it is written to, if no item is too long for one.
  pub cw1_of_payload-cw1_payload :
      (cw1 : Cw1) (payload key : List ℕ)
      → cw1.locktime < 2 ^ 32
      → cw1.sequence < 2 ^ 32
      → output_key output_key_of cw1 ≡ some key
      → cw1_payload cw1 ≡ ok payload
      → cw1_of_payload output_key_of payload ≡ some cw1
  unfolding cw1_payload cw1_of_payload cw1_of_items
  cw1_of_payload-cw1_payload cw1 payload key locktime sequence commits h =
      let (bytes, written, h1) =
        >>=-eq-ok (items_bytes (cw1.script ∷ cw1.control_block ∷ cw1.witness)) _ h in
      subst (λ (t : List ℕ). cw1_of_payload output_key_of t ≡ some cw1) (ok-injective h1)
        (rw
          (
            read_items-items_bytes _ bytes (length bytes) written (omega arith),
            u32_of-u32_bytes cw1.locktime locktime,
            u32_of-u32_bytes cw1.sequence sequence,
            commits,
          )
          refl)
