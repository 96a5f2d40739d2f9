-- ===== src/Contracts/SetToken/Units.antt =====
-- contracts/protocol/SetToken.sol: virtual and real units, and the check of a new multiplier.
use set_protocol_v2_contract.Common.{
  ℕ, ◌^◌, ◌-◌, ◌&&◌, List, [], ◌∷◌, Result, ok, err, reason, ◌>>=◌, require, if◌then◌else◌, ltb,
}
use set_protocol_v2_contract.Common.Integer.{ℤ, pos, ◌-ℤ◌, ltb_ℤ, leb_ℤ, eqb_ℤ}
use set_protocol_v2_contract.External.OpenZeppelin.{SignedSafeMath, SafeCast, min_int}
use set_protocol_v2_contract.Contracts.PreciseUnitMath.{
  conservative_precise_mul, conservative_precise_div,
}
use set_protocol_v2_contract.Contracts.SetToken.State.{SetToken, ComponentPosition}

module _ ⦃ssm : SignedSafeMath⦄ where
  unfoldable pub convert_real_to_virtual_unit : SetToken → ℤ → Result ℤ
  convert_real_to_virtual_unit t real_unit = do
    virtual_unit ← conservative_precise_div real_unit t.position_multiplier
    if ltb_ℤ (pos 0) real_unit && eqb_ℤ virtual_unit (pos 0)
        then err (reason "Virtual unit conversion invalid")
        else ok virtual_unit

  unfoldable pub convert_virtual_to_real_unit : SetToken → ℤ → Result ℤ
  convert_virtual_to_real_unit t virtual_unit =
      conservative_precise_mul virtual_unit t.position_multiplier

  unfoldable pub get_default_position_real_unit : SetToken → ℕ → Result ℤ
  unfolding convert_virtual_to_real_unit
  get_default_position_real_unit t component =
      convert_virtual_to_real_unit t (t.component_positions component).virtual_unit

  unfoldable pub get_external_position_real_unit : SetToken → ℕ → ℕ → Result ℤ
  unfolding convert_virtual_to_real_unit
  get_external_position_real_unit t component position_module =
      convert_virtual_to_real_unit t
        ((t.component_positions component).external_positions position_module).virtual_unit

  -- The loop of `getTotalComponentRealUnits` over the external modules.
  unfoldable pub add_external_units : SetToken → ℕ → List ℕ → ℤ → Result ℤ
  add_external_units t component [] total_units = ok total_units
  add_external_units t component (m ∷ rest) total_units = do
    unit ← get_external_position_real_unit t component m
    sum ← ssm.add total_units unit
    add_external_units t component rest sum

  unfoldable pub get_total_component_real_units : SetToken → ℕ → Result ℤ
  get_total_component_real_units t component = do
    total_units ← get_default_position_real_unit t component
    add_external_units t component (t.component_positions component).external_position_modules
        total_units

-- `-_a` on int256 wraps around at the least value.
unfoldable pub negate : ℤ → ℤ
negate a = if eqb_ℤ a min_int then min_int else pos 0 -ℤ a

-- `if (unit > 0 && unit < minimumUnit) minimumUnit = unit`
unfoldable pub lower : ℕ → ℕ → ℕ
lower unit minimum_unit = if ltb 0 unit && ltb unit minimum_unit then unit else minimum_unit

module _ ⦃sc : SafeCast⦄ where
  unfoldable pub absolute_value : ℤ → Result ℕ
  absolute_value a = if leb_ℤ (pos 0) a then sc.to_uint a else sc.to_uint (negate a)

  -- The inner loop of `_getPositionsAbsMinimumVirtualUnit`.
  unfoldable pub external_minimum : ComponentPosition → List ℕ → ℕ → Result ℕ
  external_minimum p [] minimum_unit = ok minimum_unit
  external_minimum p (m ∷ rest) minimum_unit = do
    unit ← absolute_value (p.external_positions m).virtual_unit
    external_minimum p rest (lower unit minimum_unit)

  unfoldable pub components_minimum : (ℕ → ComponentPosition) → List ℕ → ℕ → Result ℕ
  components_minimum positions [] minimum_unit = ok minimum_unit
  components_minimum positions (c ∷ rest) minimum_unit = do
    default_unit ← sc.to_uint (positions c).virtual_unit
    minimum ←
        external_minimum (positions c) (positions c).external_position_modules
          (lower default_unit minimum_unit)
    components_minimum positions rest minimum

  -- It starts from `uint256(-1)`.
  unfoldable pub get_positions_abs_minimum_virtual_unit : SetToken → Result ℤ
  get_positions_abs_minimum_virtual_unit t = do
    minimum ← components_minimum t.component_positions t.components (2 ^ 256 - 1)
    sc.to_int minimum

module _ ⦃ssm : SignedSafeMath⦄ ⦃sc : SafeCast⦄ where
  unfoldable pub validate_new_multiplier : SetToken → ℤ → Result (Unit {0})
  validate_new_multiplier t new_multiplier = do
    min_virtual_unit ← get_positions_abs_minimum_virtual_unit t
    scaled ← conservative_precise_mul min_virtual_unit new_multiplier
    require (ltb_ℤ (pos 0) scaled) "New multiplier too small"
