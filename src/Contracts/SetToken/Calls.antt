-- ===== src/Contracts/SetToken/Calls.antt =====
-- contracts/protocol/SetToken.sol: one call of each function that is not a read.
use set_protocol_v2_contract.Common.{ℕ, String, Bool, true, false, Result, ok, ◌>>=◌}
use set_protocol_v2_contract.Common.Integer.{ℤ}
use set_protocol_v2_contract.External.OpenZeppelin.{SignedSafeMath, SafeCast, Erc20}
use set_protocol_v2_contract.Contracts.SetToken.State.{SetToken}
use set_protocol_v2_contract.Contracts.SetToken.Operations.{
  add_component, remove_component, edit_default_position_unit, add_external_position_module,
  remove_external_position_module, edit_external_position_unit, edit_external_position_data,
  edit_position_multiplier, mint, burn, lock, unlock, add_module, remove_module,
  remove_pending_module, initialize_module, set_manager, invoke,
}

pub data Call : Type 0 where
  adds_component removes_component adds_module removes_module removes_pending_module sets_manager :
      ℕ → Call
  edits_default_position_unit : ℕ → ℤ → Call
  adds_external_position_module removes_external_position_module mints burns : ℕ → ℕ → Call
  edits_external_position_unit : ℕ → ℕ → ℤ → Call
  edits_external_position_data : ℕ → ℕ → String → Call
  edits_position_multiplier : ℤ → Call
  locks unlocks initializes_module : Call
  invokes : ℕ → ℕ → String → Call

-- What the call meets outside the token: the modules that the controller enables, the `removeModule`
-- of a module that is removed, with the token that it leaves, and the contract that `invoke` calls.
pub record Outside : Type 0 where
  pub is_module : ℕ → Bool
  pub hook : SetToken → ℕ → Result SetToken
  pub call_with_value : ℕ → ℕ → String → Result String

module _ ⦃ssm : SignedSafeMath⦄ ⦃sc : SafeCast⦄ ⦃erc20 : Erc20⦄ where
  abbrev pub apply : Outside → SetToken → ℕ → Call → Result SetToken
  apply o t sender (adds_component c) = add_component o.is_module t sender c
  apply o t sender (removes_component c) = remove_component o.is_module t sender c
  apply o t sender (adds_module m) = add_module o.is_module t sender m
  apply o t sender (removes_module m) = remove_module o.hook t sender m
  apply o t sender (removes_pending_module m) = remove_pending_module t sender m
  apply o t sender (sets_manager m) = set_manager t sender m
  apply o t sender (edits_default_position_unit c u) =
      edit_default_position_unit o.is_module t sender c u
  apply o t sender (adds_external_position_module c m) =
      add_external_position_module o.is_module t sender c m
  apply o t sender (removes_external_position_module c m) =
      remove_external_position_module o.is_module t sender c m
  apply o t sender (mints a q) = mint o.is_module t sender a q
  apply o t sender (burns a q) = burn o.is_module t sender a q
  apply o t sender (edits_external_position_unit c m u) =
      edit_external_position_unit o.is_module t sender c m u
  apply o t sender (edits_external_position_data c m d) =
      edit_external_position_data o.is_module t sender c m d
  apply o t sender (edits_position_multiplier x) = edit_position_multiplier o.is_module t sender x
  apply o t sender locks = lock o.is_module t sender
  apply o t sender unlocks = unlock o.is_module t sender
  apply o t sender initializes_module = initialize_module t sender
  apply o t sender (invokes target value d) = do
    r ← invoke o.is_module o.call_with_value t sender target value d
    ok r.0

-- The functions behind `onlyModule` and `whenLockedOnlyLocker`.
abbrev pub is_privileged : Call → Bool
is_privileged (adds_component c) = true
is_privileged (removes_component c) = true
is_privileged (edits_default_position_unit c u) = true
is_privileged (adds_external_position_module c m) = true
is_privileged (removes_external_position_module c m) = true
is_privileged (mints a q) = true
is_privileged (burns a q) = true
is_privileged (edits_external_position_unit c m u) = true
is_privileged (edits_external_position_data c m d) = true
is_privileged (edits_position_multiplier x) = true
is_privileged (invokes target value d) = true
is_privileged _ = false
