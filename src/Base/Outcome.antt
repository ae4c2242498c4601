-- ===== src/Base/Outcome.antt =====
-- `Result<A, E>`, the `?` operator and `require!`.
use mathlib.Core.Path.{◌≡◌, refl}
use mathlib.Core.Bool.{Bool, true, false}
use mathlib.Core.Logic.{◌⊎◌, inl, inr}
use mathlib.Core.Option.{Option, none, some}

pub data Result (E : Type 0) (A : Type 0) : Type 0 where
  ok : A → Result E A
  err : E → Result E A

module _ {E : Type 0} where
  -- `ok_or(error)?`
  abbrev pub ok_or : {A : Type 0} → Option A → E → Result E A
  ok_or (some value) error = ok value
  ok_or none error = err error

  -- `require!(test, error)`
  abbrev pub require : Bool → E → Result E (Unit {0})
  require false error = err error
  require true error = ok tt

  -- The `?` operator.
  infixl 5 ◌>>=◌
  abbrev pub ◌>>=◌ : {A B : Type 0} → Result E A → (A → Result E B) → Result E B
  err error >>= next = err error
  ok value >>= next = next value

  infixl 5 ◌>>◌
  abbrev pub ◌>>◌ : {B : Type 0} → Result E (Unit {0}) → Result E B → Result E B
  check >> next = check >>= (λ _. next)

  -- Inversion of a successful bind, of a passed test and of a present value.
  pub >>=-eq-ok :
      {A B : Type 0} (m : Result E A) (f : A → Result E B) {b : B}
      → (m >>= f) ≡ ok b
      → (a : A) × (m ≡ ok a) × (f a ≡ ok b)
  >>=-eq-ok (err e) f h = cc
  >>=-eq-ok (ok a) f h = (a, refl, h)

  pub require-eq-ok :
      {B : Type 0} (t : Bool) (e : E) (k : Result E B) {b : B}
      → (require t e >> k) ≡ ok b
      → (t ≡ true) × (k ≡ ok b)
  require-eq-ok false e k h = cc
  require-eq-ok true e k h = (refl, h)

  pub Result-cases :
      {A : Type 0} (m : Result E A) → ((a : A) × (m ≡ ok a)) ⊎ ((e : E) × (m ≡ err e))
  Result-cases (err e) = inr (e, refl)
  Result-cases (ok a) = inl (a, refl)

  pub ok-ne-err : {A : Type 0} {a : A} {e : E} → ok a ≡ err e → ⊥
  ok-ne-err h = cc
