-- ===== src/Common/Exits.antt =====
-- A computation that returns to its caller, ends the process by `exit(code)`, or does what C leaves
-- undefined (a read or a write outside an object).
use Prim.Native.Nat.{ℕ}
use mathlib.Core.Path.{◌≡◌, refl}

pub data Process {ℓ} (A : Type ℓ) : Type ℓ where
  returns : A → Process A
  exits : ℕ → Process A
  undefined : Process A

infixl 5 ◌>>=◌
abbrev pub ◌>>=◌ {ℓ κ} : {A : Type ℓ} {B : Type κ} → Process A → (A → Process B) → Process B
returns a >>= f = f a
exits code >>= f = exits code
undefined >>= f = undefined

pub >>=-eq-returns {ℓ κ} :
    {A : Type ℓ} {B : Type κ} (m : Process A) (f : A → Process B) {b : B}
    → (m >>= f) ≡ returns b
    → (a : A) × (m ≡ returns a) × (f a ≡ returns b)
>>=-eq-returns (returns a) f h = (a, refl, h)
>>=-eq-returns (exits code) f h = cc
>>=-eq-returns undefined f h = cc
