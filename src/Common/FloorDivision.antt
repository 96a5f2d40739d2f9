-- ===== src/Common/FloorDivision.antt =====
-- The quotient rounded down, as the meaning of the divisions that the source calls `divDown`.
use Prim.Native.Nat.{ℕ, zero, suc, ◌+◌, ◌*◌, ◌/◌, ◌%◌, ◌<◌}
use mathlib.Core.Path.{◌≡◌, ap}
use mathlib.Core.Logic.{◌≢◌}
use mathlib.Core.Bool.{Bool, false, not}
use native.Mathlib.Omega.{arith}
use native.Mathlib.Nat.{div-add-mod', mod-lt, div-eq_of_lt-le}
use native.Mathlib.Decide.{dec_lt}
use set_protocol_v2_contract.Common.Tests.{◌==◌, if◌then◌else◌}
use set_protocol_v2_contract.Common.Integer.{
  ℤ, pos, negsuc, ◌+ℤ◌, ◌-ℤ◌, ◌*ℤ◌, quot, neg, ◌≤ℤ◌, ◌<ℤ◌, pos_add,
}

unfoldable pub floor_div : ℤ → ℤ → ℤ
floor_div (pos a) (pos b) = pos (a / b)
floor_div (pos zero) (negsuc b) = pos 0
floor_div (pos (suc a)) (negsuc b) = negsuc (a / suc b)
floor_div (negsuc a) (pos b) = negsuc (a / b)
floor_div (negsuc a) (negsuc b) = pos (suc a / suc b)

-- The quotient towards zero is one too high exactly where the signs differ and a rest is left.
unfoldable pub adjusts : ℤ → ℤ → Bool
adjusts (pos a) (pos b) = false
adjusts (pos a) (negsuc b) = not (a % suc b == 0)
adjusts (negsuc a) (pos b) = not (suc a % b == 0)
adjusts (negsuc a) (negsuc b) = false

-- The quotient of a + 1 is that of a, or one more where nothing is left.
div-suc : (a b : ℕ) → suc a / suc b ≡ (if suc a % suc b == 0 then a / suc b + 1 else a / suc b)
div-suc a b = elim (dec_lt (a % suc b + 1) (suc b)) [
  | yes more ↦
      let q : suc a / suc b ≡ a / suc b =
        div-eq_of_lt-le (suc b) (omega (arith, rest)) (omega (arith, rest)) in
      ground (arith, q, div-add-mod' (suc a) (suc b), rest, ap (λ (t : ℕ). t * suc b) q)
  | no full ↦
      let q : suc a / suc b ≡ a / suc b + 1 =
        div-eq_of_lt-le (suc b) (omega (arith, rest, small)) (omega (arith, rest, small)) in
      ground (arith, q, div-add-mod' (suc a) (suc b), rest, small, ap (λ (t : ℕ). t * suc b) q)
]
  where
    rest : a / suc b * suc b + a % suc b ≡ a
    rest = div-add-mod' a (suc b)

    small : a % suc b < suc b
    small = mod-lt a (omega arith)

-- Correcting the quotient towards zero gives the quotient rounded down.
pub quot-floor_div :
    (a b : ℤ) → b ≢ pos 0 → floor_div a b ≡ (if adjusts a b then quot a b -ℤ pos 1 else quot a b)
unfolding floor_div adjusts quot ◌-ℤ◌
quot-floor_div (pos a) (pos b) h = ground arith
quot-floor_div (pos zero) (negsuc b) h = ground arith
quot-floor_div (pos (suc a)) (negsuc b) h = ground (arith, div-suc a b)
quot-floor_div (negsuc a) (pos zero) h = ground arith
quot-floor_div (negsuc a) (pos (suc b)) h = ground (arith, div-suc a b)
quot-floor_div (negsuc a) (negsuc b) h = ground arith

negsuc_add_one : (q : ℕ) → negsuc q +ℤ pos 1 ≡ neg q
unfolding ◌+ℤ◌
negsuc_add_one q = ground arith

pub neg_mul : (q d : ℕ) → neg q *ℤ pos d ≡ neg (q * d)
unfolding ◌*ℤ◌
neg_mul zero d = ground arith
neg_mul (suc q) d = ground arith

pub neg_mul_negsuc : (q d : ℕ) → neg q *ℤ negsuc d ≡ pos (q * suc d)
unfolding ◌*ℤ◌
neg_mul_negsuc zero d = ground arith
neg_mul_negsuc (suc q) d = ground arith

-- For a positive divisor it is the greatest q with q * b ≤ a.
pub floor_div-bounds :
    (a : ℤ) (b : ℕ)
    → (floor_div a (pos (suc b)) *ℤ pos (suc b) ≤ℤ a)
      × (a <ℤ (floor_div a (pos (suc b)) +ℤ pos 1) *ℤ pos (suc b))
unfolding floor_div ◌*ℤ◌
floor_div-bounds (pos a) b =
    let e = div-add-mod' a (suc b) in
    let r : a % suc b < suc b = mod-lt a (omega arith) in
    (ground (arith, e), rw (pos_add (a / suc b) 1) (ground (arith, e, r)))
floor_div-bounds (negsuc a) b =
    let e = div-add-mod' a (suc b) in
    let r : a % suc b < suc b = mod-lt a (omega arith) in
    (
      ground (arith, e, r),
      rw (negsuc_add_one (a / suc b)) (rw (neg_mul (a / suc b) (suc b)) (ground (arith, e, r))),
    )
