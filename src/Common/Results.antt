-- ===== src/Common/Results.antt =====
-- Rust's `Result` and its `?`, for any type of errors.
use mathlib.Core.Path.{◌≡◌, refl}
use mathlib.Core.Bool.{Bool, true, false}
use mathlib.Core.Option.{Option, none, some}

pub data Result {ℓ κ} (E : Type κ) (A : Type ℓ) : Type (ℓ ⊔ κ) where
  ok : (value : A) → Result E A
  err : (error : E) → Result E A

module _ {ι} {E : Type ι} where
  infixl 5 ◌>>=◌ ◌>>◌
  -- `Option::ok_or_else`
  abbrev pub ok_or {ℓ} : {A : Type ℓ} → Option A → E → Result E A
  ok_or (some value) error = ok value
  ok_or none error = err error

  -- The early return of `?`.
  abbrev pub ◌>>=◌ {ℓ κ} : {A : Type ℓ} {B : Type κ} → Result E A → (A → Result E B) → Result E B
  ◌>>=◌ (err error) next = err error
  ◌>>=◌ (ok value) next = next value

  abbrev pub ◌>>◌ {ℓ} : {B : Type ℓ} → Result E (Unit {0}) → Result E B → Result E B
  ◌>>◌ first second = first >>= λ (_ : Unit {0}). second

  -- An early return with an error, unless the test holds.
  abbrev pub guard : Bool → E → Result E (Unit {0})
  guard false error = err error
  guard true error = ok tt

  -- What a chain that succeeds says of its first step and of the rest.
  pub >>=-eq-ok {ℓ κ} :
      {A : Type ℓ} {B : Type κ} (first : Result E A) (next : A → Result E B) {result : B}
      → (first >>= next) ≡ ok result
      → (value : A) × (first ≡ ok value) × (next value ≡ ok result)
  >>=-eq-ok (err error) next h = cc
  >>=-eq-ok (ok value) next h = (value, refl, h)

  pub ok-injective {ℓ} : {A : Type ℓ} {a b : A} → ◌≡◌ {A = Result E A} (ok a) (ok b) → a ≡ b
  ok-injective h = cc h

  pub guard-eq-ok : (test : Bool) (error : E) {u : Unit {0}} → guard test error ≡ ok u → test ≡ true
  guard-eq-ok true error h = refl
  guard-eq-ok false error h = cc

  pub ok_or-eq-ok {ℓ} :
      {A : Type ℓ} (found : Option A) (error : E) {value : A}
      → ok_or found error ≡ ok value
      → found ≡ some value
  ok_or-eq-ok none error h = cc
  ok_or-eq-ok (some value) error h = cc
