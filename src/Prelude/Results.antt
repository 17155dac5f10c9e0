-- ===== src/Prelude/Results.antt =====
-- A value or the error that was thrown in its place.
use mathlib.Core.Bool.{Bool, true, false}
use mathlib.Core.Option.{Option, none, some}
use mathlib.Core.Logic.{◌⊎◌, inl, inr}
use mathlib.Core.Path.{◌≡◌, refl}

pub data Result {ℓ κ} (E : Type ℓ) (A : Type κ) : Type (ℓ ⊔ κ) where
  ok : A → Result E A
  err : E → Result E A

infixl 5 ◌>>=◌ ◌>>◌
-- The next step runs on the value that was returned, and not at all after a throw.
abbrev pub ◌>>=◌ {ℓ κ μ} :
    {E : Type ℓ} {A : Type κ} {B : Type μ} → Result E A → (A → Result E B) → Result E B
step >>= next = elim step [ err thrown ↦ err thrown | ok value ↦ next value ]

abbrev pub ◌>>◌ {ℓ μ} : {E : Type ℓ} {B : Type μ} → Result E (Unit {0}) → Result E B → Result E B
step >> next = elim step [ err thrown ↦ err thrown | ok done ↦ next ]

-- `if (refused) throw e`
abbrev pub throw_if {ℓ} : {E : Type ℓ} → Bool → E → Result E (Unit {0})
throw_if true e = err e
throw_if false e = ok tt

abbrev pub or_throw {ℓ κ} : {E : Type ℓ} {A : Type κ} → Option A → E → Result E A
or_throw none e = err e
or_throw (some a) e = ok a

pub Result-cases {ℓ κ} :
    {E : Type ℓ} {A : Type κ} (m : Result E A) → ((a : A) × (m ≡ ok a)) ⊎ ((e : E) × (m ≡ err e))
Result-cases (ok a) = inl (a, refl)
Result-cases (err e) = inr (e, refl)

-- What a chain of steps that answers went through.
module _ {ℓ κ μ} {E : Type ℓ} {A : Type κ} {B : Type μ} where
  pub ok-then :
      (m : Result E A) (next : A → Result E B) (b : B)
      → (m >>= next) ≡ ok b
      → (a : A) × (m ≡ ok a) × (next a ≡ ok b)
  ok-then (ok a) next b h = (a, refl, h)
  ok-then (err e) next b h = cc

module _ {ℓ κ} {E : Type ℓ} {A : Type κ} where
  pub ok-or_throw : (o : Option A) (e : E) (a : A) → or_throw o e ≡ ok a → o ≡ some a
  ok-or_throw none e a h = cc
  ok-or_throw (some x) e a h = cc

  pub ok-throw_if :
      (refused : Bool) (e : E) (next : Result E A) (a : A)
      → (throw_if refused e >> next) ≡ ok a
      → (refused ≡ false) × (next ≡ ok a)
  ok-throw_if true e next a h = cc
  ok-throw_if false e next a h = (refl, h)
