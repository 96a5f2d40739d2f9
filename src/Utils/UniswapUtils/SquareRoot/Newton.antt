-- ===== src/Utils/UniswapUtils/SquareRoot/Newton.antt =====
-- utils/common/uniswapUtils.ts: the steps of `sqrt` on natural numbers.
use native.Mathlib.Nat.{div-add-mod', mod-lt, mul-le-mul, mul-le-mul_right}
use set_protocol_v2_contract.Common.{
  ℕ, ◌+◌, ◌*◌, ◌/◌, ◌%◌, ◌≤◌, ◌<◌, ◌≡◌, inl, inr, arith, leb, Bool-cases, subst, ◌-◌,
}

-- The next iterate.
abbrev pub newton : ℕ → ℕ → ℕ
newton v x = (v / x + x) / 2

four_apart : (a d : ℕ) → 4 * (a * (a + d)) ≤ (a + (a + d)) * (a + (a + d))
four_apart a d = omega arith

four_products : (a b : ℕ) → 4 * (a * b) ≤ (a + b) * (a + b)
four_products a b = elim (Bool-cases (leb a b)) [
  | inl below ↦
      let e : a + (b - a) ≡ b = ground arith in
      subst (λ x. 4 * (a * x) ≤ (a + x) * (a + x)) e (four_apart a (b - a))
  | inr above ↦
      let e : b + (a - b) ≡ a = ground arith in
      omega (arith, subst (λ x. 4 * (b * x) ≤ (b + x) * (b + x)) e (four_apart b (a - b)))
]

-- Below the quotient's next multiple.
quotient_bounds : (v x : ℕ) → 0 < x → (v / x * x ≤ v) × (v < (v / x + 1) * x)
quotient_bounds v x h =
    let e = div-add-mod' v x in
    let r : v % x < x = mod-lt v h in (omega (arith, e, r), omega (arith, e, r))

factor_below : (q y x v : ℕ) → q * x ≤ v → v < y * x → q < y
factor_below q y x v low high = elim (Bool-cases (leb y q)) [
  | inl over ↦
      let more : y * x ≤ q * x = mul-le-mul_right x (ground arith) in
      absurd (omega (arith, low, high, more))
  | inr under ↦ ground arith
]

root_below : (x m v : ℕ) → x * x ≤ v → v < m * m → x < m
root_below x m v low high = elim (Bool-cases (leb m x)) [
  | inl over ↦
      let m_x : m ≤ x = ground arith in
      let more : m * m ≤ x * x = mul-le-mul m_x m_x in absurd (omega (arith, low, high, more))
  | inr under ↦ ground arith
]

-- No iterate is below the root.
pub newton-above : (v x : ℕ) → 0 < x → v < (newton v x + 1) * (newton v x + 1)
newton-above v x h =
    let q = v / x in
    let n = newton v x in
    let half : q + 1 + x ≤ 2 * (n + 1) = omega arith in
    let (_, below) = quotient_bounds v x h in
    let am_gm = four_products (q + 1) x in
    let squares : (q + 1 + x) * (q + 1 + x) ≤ 2 * (n + 1) * (2 * (n + 1)) = mul-le-mul half half in
    omega (arith, below, am_gm, squares)

-- Above the root the next iterate is less.
pub newton-decreases : (v x : ℕ) → 0 < x → v < x * x → newton v x < x
newton-decreases v x h above =
    let q = v / x in
    let (low, _) = quotient_bounds v x h in
    let less : q < x = factor_below q x x v low above in omega (arith, less)

-- At the root it is the root, or one more.
pub newton-at_root : (v x : ℕ) → 0 < x → v < (x + 1) * (x + 1) → newton v x ≤ x + 1
newton-at_root v x h root =
    let q = v / x in
    let (low, _) = quotient_bounds v x h in
    let less : q ≤ x + 2 = omega (arith, factor_below q (x + 3) x v low (omega (arith, root, h))) in
    omega (arith, less)

-- And one more leads back.
pub newton-back : (v x : ℕ) → x * x ≤ v → v < (x + 1) * (x + 1) → newton v (x + 1) ≡ x
newton-back v x low high =
    let q = v / (x + 1) in
    let (under, _) = quotient_bounds v (x + 1) (omega arith) in
    let above = newton-above v (x + 1) (omega arith) in
    let less : q ≤ x = omega (arith, factor_below q (x + 1) (x + 1) v under high) in
    let at_most : newton v (x + 1) ≤ x = omega (arith, less) in
    let at_least : x ≤ newton v (x + 1) =
      omega (arith, root_below x (newton v (x + 1) + 1) v low above) in
    omega (arith, at_most, at_least)
