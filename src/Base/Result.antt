-- ===== src/Base/Result.antt =====
-- A call that may raise: its value, or the exception.
use mathlib.Core.Path.{◌≡◌, refl}
use mathlib.Core.Logic.{◌⊎◌, inl, inr}
use mathlib.Core.Bool.{Bool, true, false}
use bo_thesis.Base.Tests.{if◌then◌else◌}

pub data Result {ℓ} (E A : Type ℓ) : Type ℓ where
  ok : A → Result E A
  err : E → Result E A

-- `if not test: raise e`
abbrev pub require : {E : Type 0} → Bool → E → Result E Unit
require true e = ok tt
require false e = err e

infixl 5 ◌>>=◌
abbrev pub ◌>>=◌ {ℓ} : {E A B : Type ℓ} → Result E A → (A → Result E B) → Result E B
ok a >>= f = f a
err e >>= f = err e

pub >>=-eq-ok {ℓ} :
    {E A B : Type ℓ} (call : Result E A) (next : A → Result E B) {value : B}
    → (call >>= next) ≡ ok value
    → (got : A) × (call ≡ ok got) × (next got ≡ ok value)
>>=-eq-ok (ok got) next returned = (got, refl, returned)
>>=-eq-ok (err raised) next returned = cc

pub ok_same {ℓ} : {E A : Type ℓ} (call : Result E A) {x y : A} → call ≡ ok x → call ≡ ok y → x ≡ y
ok_same call h k = cc

-- One call after another, whose value is not used.
infixl 5 ◌>>◌
abbrev pub ◌>>◌ : {E B : Type 0} → Result E Unit → Result E B → Result E B
m >> k = m >>= λ _. k

pub require-eq-ok :
    {E B : Type 0} (b : Bool) (e : E) (k : Result E B) {x : B}
    → (require b e >> k) ≡ ok x
    → (b ≡ true) × (k ≡ ok x)
require-eq-ok true e k h = (refl, h)
require-eq-ok false e k h = cc

-- `if test: return value` before the rest
pub guarded_cases :
    {E A : Type 0} (test : Bool) (value : A) (rest : Result E A) {x : A}
    → (if test then ok value else rest) ≡ ok x
    → (value ≡ x) ⊎ (rest ≡ ok x)
guarded_cases true value rest h = inl (cc)
guarded_cases false value rest h = inr h
