-- ===== src/Common/Lists.antt =====
-- Lists read with native numbers: lengths and positions.
use Prim.Native.Nat.{ℕ, zero, suc, ◌+◌}
use mathlib.Core.Path.{◌≡◌}
use mathlib.Core.Option.{Option, none, some}
use mathlib.Core.List.{List, [], ◌∷◌, ◌++◌}
use native.Mathlib.Omega.{arith}
use set_protocol_v2_contract.Common.Tests.{if◌then◌else◌, ◌==◌}

module _ {ℓ} {A : Type ℓ} where
  abbrev pub length : List A → ℕ
  length [] = 0
  length (x ∷ xs) = suc (length xs)

  abbrev pub get_elem? : List A → ℕ → Option A
  get_elem? [] i = none
  get_elem? (x ∷ xs) zero = some x
  get_elem? (x ∷ xs) (suc i) = get_elem? xs i

  pub length-append : (xs ys : List A) → length (xs ++ ys) ≡ length xs + length ys
  length-append [] ys = omega arith
  length-append (x ∷ xs) ys = omega (arith, length-append xs ys)

  -- A write out of range changes nothing.
  abbrev pub set : List A → ℕ → A → List A
  set [] i v = []
  set (x ∷ xs) zero v = v ∷ xs
  set (x ∷ xs) (suc i) v = x ∷ set xs i v

  abbrev pub take : ℕ → List A → List A
  take zero xs = []
  take (suc n) [] = []
  take (suc n) (x ∷ xs) = x ∷ take n xs

  abbrev pub drop : ℕ → List A → List A
  drop zero xs = xs
  drop (suc n) [] = []
  drop (suc n) (x ∷ xs) = drop n xs

-- How often a number stands in a list.
abbrev pub count : ℕ → List ℕ → ℕ
count a [] = 0
count a (x ∷ xs) = if a == x then count a xs + 1 else count a xs

pub count-append :
    (x : ℕ) (front rest : List ℕ) → count x (front ++ rest) ≡ count x front + count x rest
count-append x [] rest = omega arith
count-append x (y ∷ front) rest = ground (arith, count-append x front rest)

-- A write at a position replaces one entry by another.
pub count-set :
    (a : ℕ) (xs : List ℕ) (i v : ℕ) {old : ℕ}
    → get_elem? xs i ≡ some old
    → count a (set xs i v) + (if a == old then 1 else 0) ≡ count a xs + (if a == v then 1 else 0)
count-set a [] i v h = cc
count-set a (x ∷ xs) zero v h = ground arith
count-set a (x ∷ xs) (suc i) v h = ground (arith, count-set a xs i v h)
