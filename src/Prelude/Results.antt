-- ===== src/Prelude/Results.antt =====
-- Code that may raise: a result is a value or the fault that was raised.
use mathlib.Core.Path.{◌≡◌, refl}
use mathlib.Core.Bool.{Bool, true, false}
use mathlib.Core.Logic.{◌⊎◌, inl, inr}

pub data Result {ℓ κ} (E : Type ℓ) (A : Type κ) : Type (ℓ ⊔ κ) where
  ok : A → Result E A
  err : E → Result E A

infixl 5 ◌>>=◌ ◌>>◌
abbrev pub ◌>>=◌ {ℓ κ μ} :
    {E : Type ℓ} {A : Type κ} {B : Type μ} → Result E A → (A → Result E B) → Result E B
ok a >>= f = f a
err e >>= f = err e

abbrev pub ◌>>◌ {ℓ κ} : {E : Type ℓ} {B : Type κ} → Result E (Unit {0}) → Result E B → Result E B
m >> k = m >>= λ _. k

-- `if test: raise fault`
abbrev pub raise_if {ℓ} : {E : Type ℓ} → Bool → E → Result E (Unit {0})
raise_if true e = err e
raise_if false e = ok tt

pub Result-cases {ℓ κ} :
    {E : Type ℓ} {A : Type κ} (r : Result E A) → ((a : A) × (r ≡ ok a)) ⊎ ((e : E) × (r ≡ err e))
Result-cases (ok a) = inl (a, refl)
Result-cases (err e) = inr (e, refl)

pub raise_if-false {ℓ} : {E : Type ℓ} (b : Bool) (e : E) → raise_if b e ≡ ok tt → b ≡ false
raise_if-false true e h = cc
raise_if-false false e h = refl

-- A sequence that succeeds went through each of its steps.
module _ {ℓ κ} {E : Type ℓ} {A : Type κ} where
  pub >>-ok :
      (m : Result E (Unit {0})) (k : Result E A) {a : A}
      → (m >> k) ≡ ok a
      → (m ≡ ok tt) × (k ≡ ok a)
  >>-ok (ok u) k h = (refl, h)
  >>-ok (err e) k h = cc

  pub raise_if-ok :
      (b : Bool) (e : E) (k : Result E A) {a : A}
      → (raise_if b e >> k) ≡ ok a
      → (b ≡ false) × (k ≡ ok a)
  raise_if-ok true e k h = cc
  raise_if-ok false e k h = (refl, h)

  -- A test that does not hold raises nothing.
  pub raise_if-pass : (b : Bool) (e : E) (k : Result E A) → b ≡ false → (raise_if b e >> k) ≡ k
  raise_if-pass true e k h = cc
  raise_if-pass false e k h = refl

abbrev pub is_ok {ℓ κ} : {E : Type ℓ} {A : Type κ} → Result E A → Bool
is_ok (ok a) = true
is_ok (err e) = false

module _ {ℓ κ μ} {E : Type ℓ} {A : Type κ} {B : Type μ} where
  pub is_ok-bind :
      (m : Result E A) (f : A → Result E B)
      → is_ok m ≡ true
      → ((a : A) → is_ok (f a) ≡ true)
      → is_ok (m >>= f) ≡ true
  is_ok-bind (ok a) f h k = k a
  is_ok-bind (err e) f h k = cc

pub is_ok-value {ℓ κ} :
    {E : Type ℓ} {A : Type κ} (r : Result E A) → is_ok r ≡ true → (a : A) × (r ≡ ok a)
is_ok-value (ok a) h = (a, refl)
is_ok-value (err e) h = cc
