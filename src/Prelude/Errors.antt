-- ===== src/Prelude/Errors.antt =====
-- A computation that may raise: the value, or the exception as a value.
use mathlib.Core.Bool.{Bool, true, false}
use mathlib.Core.Path.{◌≡◌, refl}

pub data Result {ℓ} (E A : Type ℓ) : Type ℓ where
  err : E → Result E A
  ok : A → Result E A

module _ {ℓ} {E : Type ℓ} where
  infixl 5 ◌>>=◌
  abbrev pub ◌>>=◌ : {A B : Type ℓ} → Result E A → (A → Result E B) → Result E B
  err raised >>= next = err raised
  ok value >>= next = next value

  infixl 5 ◌>>◌
  abbrev pub ◌>>◌ : {B : Type ℓ} → Result E (Unit {ℓ}) → Result E B → Result E B
  test >> rest = test >>= λ _. rest

  -- `if bad: raise e`
  abbrev pub refuse_if : Bool → E → Result E (Unit {ℓ})
  refuse_if true e = err e
  refuse_if false e = ok tt

  -- What a passed test and a successful step leave to be done.
  pub refuse_if-eq-ok :
      {B : Type ℓ} (c : Bool) (e : E) (k : Result E B) {b : B}
      → (refuse_if c e >> k) ≡ ok b
      → (c ≡ false) × (k ≡ ok b)
  refuse_if-eq-ok true e k h = cc
  refuse_if-eq-ok false e k h = (refl, h)

  pub >>=-eq-ok :
      {A B : Type ℓ} (step : Result E A) (next : A → Result E B) {end : B}
      → (step >>= next) ≡ ok end
      → (value : A) × (step ≡ ok value) × (next value ≡ ok end)
  >>=-eq-ok (err raised) next h = cc
  >>=-eq-ok (ok value) next h = (value, refl, h)
