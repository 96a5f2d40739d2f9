-- ===== src/Contracts/SetToken/State.antt =====
-- contracts/protocol/SetToken.sol: the state variables, the guards and the simple reads.
use set_protocol_v2_contract.Common.{
  ℕ, String, Bool, true, false, List, [], Result, ok, ◌>>◌, require, if◌then◌else◌, ◌==◌,
}
use set_protocol_v2_contract.Common.Integer.{ℤ, pos}
use set_protocol_v2_contract.External.OpenZeppelin.{Ledger}
use set_protocol_v2_contract.Contracts.AddressArrayUtils.{contains}

-- `NONE`, `PENDING` and `INITIALIZED`
pub data ModuleState : Type 0 where
  none_state pending initialized : ModuleState

abbrev pub is_initialized_state : ModuleState → Bool
is_initialized_state none_state = false
is_initialized_state pending = false
is_initialized_state initialized = true

abbrev pub is_pending_state : ModuleState → Bool
is_pending_state none_state = false
is_pending_state pending = true
is_pending_state initialized = false

abbrev pub is_none_state : ModuleState → Bool
is_none_state none_state = true
is_none_state pending = false
is_none_state initialized = false

pub record ExternalPosition : Type 0 where
  pub virtual_unit : ℤ
  pub data_bytes : String

pub record ComponentPosition : Type 0 where
  pub virtual_unit : ℤ
  pub external_position_modules : List ℕ
  pub external_positions : ℕ → ExternalPosition

pub record SetToken : Type 0 where
  pub manager : ℕ
  pub locker : ℕ
  pub modules : List ℕ
  pub module_states : ℕ → ModuleState
  pub is_locked : Bool
  pub components : List ℕ
  pub component_positions : ℕ → ComponentPosition
  pub position_multiplier : ℤ
  pub ledger : Ledger

abbrev pub no_position : ComponentPosition
no_position = record {
  virtual_unit = pos 0;
  external_position_modules = [];
  external_positions = λ _. record { virtual_unit = pos 0; data_bytes = "" };
}

unfoldable pub is_component : SetToken → ℕ → Bool
is_component t component = contains t.components component

unfoldable pub is_external_position_module : SetToken → ℕ → ℕ → Bool
is_external_position_module t component position_module =
    contains (t.component_positions component).external_position_modules position_module

-- The guards of the modifiers. `is_module` is the controller's mapping at the time of the call.
unfoldable pub validate_only_module : (ℕ → Bool) → SetToken → ℕ → Result (Unit {0})
validate_only_module is_module t sender = do
  require (is_initialized_state (t.module_states sender)) "Only the module can call"
  require (is_module sender) "Module must be enabled on controller"

unfoldable pub validate_only_manager : SetToken → ℕ → Result (Unit {0})
validate_only_manager t sender = require (sender == t.manager) "Only manager can call"

unfoldable pub validate_when_locked_only_locker : SetToken → ℕ → Result (Unit {0})
validate_when_locked_only_locker t sender =
    if t.is_locked
    then require (sender == t.locker) "When locked, only the locker can call"
    else ok tt

-- The two modifiers of the privileged functions.
unfoldable pub privileged : (ℕ → Bool) → SetToken → ℕ → Result (Unit {0})
unfolding validate_only_module validate_when_locked_only_locker
privileged is_module t sender = do
  validate_only_module is_module t sender
  validate_when_locked_only_locker t sender
