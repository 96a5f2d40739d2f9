-- ===== src/Common/Outcomes.antt =====
-- A call's result. A TypeScript exception and a Solidity revert are both the error of a result.
use Prim.Native.String.{String}
use mathlib.Core.Path.{◌≡◌, refl}
use mathlib.Core.Logic.{◌⊎◌, inl, inr}
use mathlib.Core.Bool.{Bool, true, false}

-- `reason` carries a message that the source writes; `fault` is an error that is raised inside a
-- third-party library or by the virtual machine, whose message is not the source's.
pub data Error : Type 0 where
  fault : Error
  reason : String → Error

pub data Result {ℓ} (V : Type ℓ) : Type ℓ where
  err : Error → Result V
  ok : V → Result V

infixl 5 ◌>>=◌ ◌>>◌
-- The next call of a chain is made with the value of the one before, where there is one.
abbrev pub ◌>>=◌ {ℓ ℓ'} : {V : Type ℓ} {W : Type ℓ'} → Result V → (V → Result W) → Result W
err x >>= next = err x
ok v >>= next = next v

abbrev pub ◌>>◌ {ℓ} : {W : Type ℓ} → Result (Unit {0}) → Result W → Result W
check >> next = check >>= λ _. next

abbrev pub map_result {ℓ ℓ'} : {V : Type ℓ} {W : Type ℓ'} → (V → W) → Result V → Result W
map_result f (err x) = err x
map_result f (ok v) = ok (f v)

-- `require(condition, message)`
abbrev pub require : Bool → String → Result (Unit {0})
require true message = ok tt
require false message = err (reason message)

pub ok_injective {ℓ} : {A : Type ℓ} {a b : A} → ok a ≡ ok b → a ≡ b
ok_injective e = cc

pub Result-cases {ℓ} :
    {V : Type ℓ} (r : Result V) → ((v : V) × (r ≡ ok v)) ⊎ ((x : Error) × (r ≡ err x))
Result-cases (err x) = inr (x, refl)
Result-cases (ok v) = inl (v, refl)

-- A chain that returns has returned a value at its first step.
pub bind-inversion {ℓ ℓ'} :
    {A : Type ℓ} {B : Type ℓ'} (r : Result A) (k : A → Result B) {b : B}
    → (r >>= k) ≡ ok b
    → (a : A) × (r ≡ ok a) × (k a ≡ ok b)
bind-inversion (ok a) k h = (a, refl, h)
bind-inversion (err e) k h = absurd (cc)

pub require-inversion {ℓ} :
    {W : Type ℓ} (condition : Bool) (message : String) (next : Result W) {v : W}
    → (require condition message >> next) ≡ ok v
    → (condition ≡ true) × (next ≡ ok v)
require-inversion true message next h = (refl, h)
require-inversion false message next h = absurd (cc)
