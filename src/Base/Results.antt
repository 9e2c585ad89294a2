-- ===== src/Base/Results.antt =====
-- What a Python call gives: a value, or one of the exceptions that the sources raise.

use mathlib.Core.Path.{◌≡◌, refl}
use mathlib.Core.Option.{some}
use mathlib.Core.Bool.{Bool, true, false}

pub data Exc : Type 0 where
  value_error : Exc  -- `_require`, and `raise ValueError`
  assertion_error : Exc  -- `assert` in a launcher
  runtime_error : Exc  -- `raise RuntimeError`
  tma_requirement : Exc  -- `TMARequirementError`
  tma_unsupported : Exc  -- `TMAUnsupportedError`
  zero_division : Exc  -- `%` or `//` by 0

pub data Outcome {ℓ} (A : Type ℓ) : Type ℓ where
  ok : A → Outcome A
  err : Exc → Outcome A

infixl 5 ◌>>=◌ ◌>>◌
abbrev pub ◌>>=◌ {ℓ κ} : {A : Type ℓ} {B : Type κ} → Outcome A → (A → Outcome B) → Outcome B
ok a >>= f = f a
err e >>= f = err e

abbrev pub ◌>>◌ {ℓ} : {B : Type ℓ} → Outcome (Unit {0}) → Outcome B → Outcome B
m >> k = m >>= λ _. k

-- `if not cond: raise e`.
abbrev pub check : Bool → Exc → Outcome (Unit {0})
check true e = ok tt
check false e = err e

-- `_require(cond, msg)`.
abbrev pub require : Bool → Outcome (Unit {0})
require cond = check cond value_error

pub ok-injective {ℓ} : {A : Type ℓ} {a b : A} → ok a ≡ ok b → a ≡ b
ok-injective p = cc

-- Inversion of a chain that succeeded.
pub >>=-ok {ℓ κ} :
    {A : Type ℓ} {B : Type κ} (m : Outcome A) (f : A → Outcome B) {b : B}
    → (m >>= f) ≡ ok b
    → (a : A) × (m ≡ ok a) × (f a ≡ ok b)
>>=-ok (ok a) f h = (a, refl, h)
>>=-ok (err e) f h = absurd (cc)

pub some-injective {ℓ} : {A : Type ℓ} {a b : A} → some a ≡ some b → a ≡ b
some-injective p = cc

pub check-true : (b : Bool) (e : Exc) → check b e ≡ ok tt → b ≡ true
check-true true e h = refl
check-true false e h = absurd (cc)
