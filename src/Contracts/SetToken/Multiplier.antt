-- ===== src/Contracts/SetToken/Multiplier.antt =====
-- contracts/protocol/SetToken.sol: what `editPositionMultiplier` leaves of the stored units.
use native.Mathlib.Nat.{mul-le-mul_right}
use set_protocol_v2_contract.Common.{
  ℕ, suc, ◌-◌, ◌*◌, ◌^◌, ◌<◌, ◌≤◌, ◌≡◌, ◌≢◌, ◌⊎◌, Bool, true, List, [], ◌∷◌, ok, refl, sym, ap, ◌∙◌,
  subst, arith, Bool-cases, Result-cases, inl, inr, ◌==◌,
}
use set_protocol_v2_contract.Common.Integer.{ℤ, pos, negsuc, ltb_ℤ}
use set_protocol_v2_contract.Common.Lists.{count}
use set_protocol_v2_contract.External.OpenZeppelin.{SignedSafeMath, SafeCast}
use set_protocol_v2_contract.Contracts.SetToken.State.{SetToken, ComponentPosition}
use set_protocol_v2_contract.Contracts.SetToken.Units.{
  lower, absolute_value, external_minimum, components_minimum, convert_virtual_to_real_unit,
  validate_new_multiplier, get_positions_abs_minimum_virtual_unit,
}
use set_protocol_v2_contract.Contracts.PreciseUnitMath.{conservative_precise_mul}
use set_protocol_v2_contract.Contracts.PreciseUnitMath.Conservative.{
  conservative_precise_mul_pos, conservative_precise_mul_negsuc,
}
use set_protocol_v2_contract.Contracts.SetToken.Operations.{edit_position_multiplier}
use set_protocol_v2_contract.Contracts.SetToken.Inversion.{edit_position_multiplier_inversion}

-- The position holds the virtual unit v, as its default unit or as one of its external units.
abbrev pub HasUnit : ComponentPosition → ℕ → Type 0
HasUnit p v =
    (p.virtual_unit ≡ pos v)
    ⊎ ((m : ℕ) × (0 < count m p.external_position_modules)
        × ((p.external_positions m).virtual_unit ≡ pos v))

lower-bound :
    (unit minimum : ℕ) → (lower unit minimum ≤ minimum) × (0 < unit → lower unit minimum ≤ unit)
unfolding lower
lower-bound unit minimum = (ground arith, λ h. ground arith)

module _ ⦃sc : SafeCast⦄ where
  absolute_value_pos : (n : ℕ) → absolute_value (pos n) ≡ ok n
  unfolding absolute_value
  absolute_value_pos n = ground (arith, sc.to_uint_lem (pos n))

  -- The result is at most the start, and at most each positive external unit.
  external_minimum-bound :
      (p : ComponentPosition) (modules : List ℕ) (minimum : ℕ) (r : ℕ)
      → external_minimum p modules minimum ≡ ok r
      → (r ≤ minimum)
        × ((m v : ℕ)
            → 0 < count m modules
            → (p.external_positions m).virtual_unit ≡ pos (suc v)
            → r ≤ suc v)
  unfolding external_minimum
  external_minimum-bound p [] minimum r h = (ground arith, λ m v k e. ground arith)
  external_minimum-bound p (x ∷ rest) minimum r h =
      elim (Result-cases (absolute_value (p.external_positions x).virtual_unit)) [
        | inr (y, e) ↦ absurd (ground arith)
        | inl (unit, e) ↦
            let again : external_minimum p rest (lower unit minimum) ≡ ok r = ground arith in
            let (below, each) = external_minimum-bound p rest (lower unit minimum) r again in
            let (at_most, at_unit) = lower-bound unit minimum in
            (
              ground arith,
              λ m v k positive. elim (Bool-cases (m == x)) [
                | inl here ↦
                    let same : m ≡ x = ground arith in
                    let unit_is : ok unit ≡ ok (suc v) =
                      sym e
                      ∙ ap (λ a. absolute_value (p.external_positions a).virtual_unit) (sym same)
                      ∙ ap absolute_value positive
                      ∙ absolute_value_pos (suc v) in
                    ground arith
                | inr other ↦ each m v (ground arith) positive
              ],
            )
      ]

  components_minimum-bound :
      (positions : ℕ → ComponentPosition) (components : List ℕ) (minimum : ℕ) (r : ℕ)
      → components_minimum positions components minimum ≡ ok r
      → (r ≤ minimum)
        × ((c v : ℕ) → 0 < count c components → HasUnit (positions c) (suc v) → r ≤ suc v)
  unfolding components_minimum
  components_minimum-bound positions [] minimum r h = (ground arith, λ c v k e. ground arith)
  components_minimum-bound positions (x ∷ rest) minimum r h =
      elim (Result-cases (sc.to_uint (positions x).virtual_unit)) [
        | inr (y, e) ↦ absurd (ground arith)
        | inl (unit, e) ↦
            elim (Result-cases (
              external_minimum (positions x) (positions x).external_position_modules
                (lower unit minimum))) [
                  | inr (y, e') ↦ absurd (ground arith)
                  | inl (m, e') ↦
                      let again : components_minimum positions rest m ≡ ok r = ground arith in
                      let (below, each) = components_minimum-bound positions rest m r again in
                      let (inner, modules) =
                        external_minimum-bound (positions x) (positions x).external_position_modules
                          (lower unit minimum) m e' in
                      let (at_most, at_unit) = lower-bound unit minimum in
                      (
                        ground arith,
                        λ c v k has. elim (Bool-cases (c == x)) [
                          | inr other ↦ each c v (ground arith) has
                          | inl here ↦
                              let same : c ≡ x = ground arith in
                              elim (subst (λ a. HasUnit (positions a) (suc v)) same has) [
                                | inl default ↦
                                    let unit_is : unit ≡ suc v = ground (
                                      arith,
                                      sc.to_uint_lem (pos (suc v)),
                                      ap sc.to_uint default,
                                    ) in
                                    ground arith
                                | inr (p, listed, positive) ↦
                                    ground (arith, modules p v listed positive)
                              ]
                        ],
                      )
                ]
      ]

module _ ⦃ssm : SignedSafeMath⦄ ⦃sc : SafeCast⦄ where
  validate_new_multiplier_inversion :
      (t : SetToken) (x : ℤ)
      → validate_new_multiplier t x ≡ ok tt
      → (k : ℕ) × (s : ℤ) × (components_minimum t.component_positions t.components (2 ^ 256 - 1)
          ≡ ok k)
        × (conservative_precise_mul (pos k) x ≡ ok s)
        × (ltb_ℤ (pos 0) s ≡ true)
  unfolding validate_new_multiplier get_positions_abs_minimum_virtual_unit
  validate_new_multiplier_inversion t x h =
      elim (Result-cases (components_minimum t.component_positions t.components (2 ^ 256 - 1))) [
        | inr (y, e) ↦ absurd (ground arith)
        | inl (k, e) ↦ elim (Result-cases (conservative_precise_mul (pos k) x)) [
          | inr (y, e') ↦ absurd (ground (arith, sc.to_int_lem k))
          | inl (s, e') ↦ (k, s, e, e', ground (arith, sc.to_int_lem k))
        ]
      ]

  scaled_positive :
      (k : ℕ) (x s : ℤ)
      → conservative_precise_mul (pos k) x ≡ ok s
      → ltb_ℤ (pos 0) s ≡ true
      → (m : ℕ) × (x ≡ pos m) × (10 ^ 18 ≤ k * m)
  scaled_positive k (pos m) s h positive =
      (m, refl, ground (arith, conservative_precise_mul_pos k m))
  scaled_positive k (negsuc m) s h positive =
      absurd (ground (arith, conservative_precise_mul_negsuc k m s h))

  -- A multiplier that `editPositionMultiplier` accepts is positive, and under it no positive unit of
  -- a listed component, default or external, reads as a real unit of zero.
  pub edit_position_multiplier-keeps_units :
      (is_module : ℕ → Bool) (t : SetToken) (sender : ℕ) (x : ℤ) (t' : SetToken)
      → edit_position_multiplier is_module t sender x ≡ ok t'
      → (m : ℕ) × (x ≡ pos m)
        × (0 < m)
        × ((c v : ℕ)
            → 0 < count c t'.components
            → HasUnit (t'.component_positions c) (suc v)
            → convert_virtual_to_real_unit t' (pos (suc v)) ≢ ok (pos 0))
  unfolding convert_virtual_to_real_unit
  edit_position_multiplier-keeps_units is_module t sender x t' h =
      let (checked, e) = edit_position_multiplier_inversion is_module t sender x t' h in
      let (k, s, least, scaled, positive) = validate_new_multiplier_inversion t x checked in
      let (m, is_pos, enough) = scaled_positive k x s scaled positive in
      let (below, each) =
        components_minimum-bound t.component_positions t.components (2 ^ 256 - 1) k least in
      let listed : (c : ℕ) → count c t'.components ≡ count c t.components =
        λ c. ap (λ u. count c u.components) e in
      (
        m,
        is_pos,
        ground arith,
        λ c v k' has zero.
            let same : t'.position_multiplier ≡ pos m =
              ap (λ u. u.position_multiplier) e ∙ is_pos in
            let had : HasUnit (t.component_positions c) (suc v) =
              subst (λ u. HasUnit (u.component_positions c) (suc v)) e has in
            let at_least : k ≤ suc v = each c v (ground (arith, listed c)) had in
            let grows : k * m ≤ suc v * m = mul-le-mul_right m at_least in
            let read : conservative_precise_mul (pos (suc v)) (pos m) ≡ ok (pos 0) =
              ap (conservative_precise_mul (pos (suc v))) (sym same) ∙ zero in
            ground (arith, conservative_precise_mul_pos (suc v) m),
      )
