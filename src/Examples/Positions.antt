-- ===== src/Examples/Positions.antt =====
-- contracts/protocol/lib/Position.sol: the component of the token falls from 16 to 13, one of which
-- was airdropped before.
use set_protocol_v2_contract.Common.{◌-◌, ◌*◌, ◌^◌, ◌≡◌, refl, ok}
use set_protocol_v2_contract.Common.Integer.{pos, ◌*ℤ◌, quot}
use set_protocol_v2_contract.Contracts.Storage.{update}
use set_protocol_v2_contract.Contracts.PreciseUnitMath.{
  precise_mul, precise_div, conservative_precise_mul, conservative_precise_div, div_down,
  xor_is_negative, has_remainder,
}
use set_protocol_v2_contract.Contracts.SetToken.{
  put_position, edit_default_position_unit, privileged, validate_only_module,
  validate_when_locked_only_locker, get_default_position_real_unit, convert_virtual_to_real_unit,
  convert_real_to_virtual_unit,
}
use set_protocol_v2_contract.Contracts.Position.{
  EditedPosition, has_default_position, has_external_position, update_component,
  edit_default_position, calculate_default_edit_position_unit, calculate_and_edit_default_position,
}
use set_protocol_v2_contract.Contracts.Position.Tracking.{
  LeavesCovered, calculate_and_edit_default_position-covers,
}
use set_protocol_v2_contract.Examples.Instances.{safe_math, signed_safe_math, safe_cast}
use set_protocol_v2_contract.Examples.Components.{Balances, component_contracts}
use set_protocol_v2_contract.Examples.Registry.{started}
use set_protocol_v2_contract.Examples.Issuance.{shares}

abbrev thirteen : Balances
thirteen = update (λ _ _. 0) 5 (update (λ _. 0) 100 13)

-- From 1.5 to 1.2 per share.
abbrev edited : EditedPosition
edited = record {
  edited_token =
      put_position shares 5
        (record (shares.component_positions 5) { virtual_unit = pos (12 * 10 ^ 17) });
  current_balance = 13;
  previous_unit = 15 * 10 ^ 17;
  new_unit = 12 * 10 ^ 17;
}

edits_to_twelve :
    calculate_and_edit_default_position started.is_module ⦃sm = safe_math⦄ ⦃ssm = signed_safe_math⦄
      ⦃sc = safe_cast⦄ ⦃tc = component_contracts⦄ thirteen shares 20 100 5 10 16
    ≡ ok edited
unfolding calculate_and_edit_default_position calculate_default_edit_position_unit
    edit_default_position update_component has_default_position has_external_position
    edit_default_position_unit privileged validate_only_module validate_when_locked_only_locker
    get_default_position_real_unit convert_virtual_to_real_unit convert_real_to_virtual_unit
    precise_mul precise_div conservative_precise_mul conservative_precise_div div_down
    xor_is_negative has_remainder ◌*ℤ◌ quot
edits_to_twelve = refl

calculate_and_edit_default_position-covers_example :
    LeavesCovered ⦃ssm = signed_safe_math⦄ ⦃tc = component_contracts⦄ thirteen shares 100 5 10 16
      edited
calculate_and_edit_default_position-covers_example =
    calculate_and_edit_default_position-covers started.is_module ⦃sm = safe_math⦄
      ⦃ssm = signed_safe_math⦄ ⦃sc = safe_cast⦄ ⦃tc = component_contracts⦄ thirteen shares 20 100 5
      10 16 (10 ^ 18 - 1) edited refl edits_to_twelve
