-- ===== src/Contracts/SetToken/Operations.antt =====
-- contracts/protocol/SetToken.sol: the functions that change the state.
use set_protocol_v2_contract.Common.{
  ◌^◌, ℕ, String, Bool, true, false, not, List, [], ◌∷◌, ◌++◌, Result, ok, ◌>>=◌, ◌>>◌, require,
  ◌==◌,
}
use set_protocol_v2_contract.Common.Integer.{ℤ, pos}
use set_protocol_v2_contract.External.OpenZeppelin.{SignedSafeMath, SafeCast, Erc20}
use set_protocol_v2_contract.Contracts.AddressArrayUtils.{remove_storage}
use set_protocol_v2_contract.Contracts.Storage.{update}
use set_protocol_v2_contract.Contracts.SetToken.State.{
  ModuleState, SetToken, ComponentPosition, ExternalPosition, none_state, pending, initialized,
  no_position, is_initialized_state, is_pending_state, is_none_state, is_component,
  is_external_position_module, validate_only_module, validate_only_manager, privileged,
}
use set_protocol_v2_contract.Contracts.SetToken.Units.{
  convert_real_to_virtual_unit, validate_new_multiplier,
}

-- The two loops of the constructor.
unfoldable pub make_pending : List ℕ → (ℕ → ModuleState) → ℕ → ModuleState
make_pending [] states = states
make_pending (m ∷ rest) states = make_pending rest (update states m pending)

unfoldable pub set_units : List ℕ → List ℤ → (ℕ → ComponentPosition) → ℕ → ComponentPosition
set_units [] units positions = positions
set_units (c ∷ rest) [] positions = positions
set_units (c ∷ rest) (u ∷ units) positions =
    set_units rest units (update positions c (record (positions c) { virtual_unit = u }))

-- The constructor; its arrays of components and units have one length.
unfoldable pub create : List ℕ → List ℤ → List ℕ → ℕ → SetToken
unfolding make_pending set_units
create components units modules manager = record {
  manager = manager;
  locker = 0;
  modules = [];
  module_states = make_pending modules (λ _. none_state);
  is_locked = false;
  components = components;
  component_positions = set_units components units (λ _. no_position);
  position_multiplier = pos (10 ^ 18);
  ledger = record { balances = λ _. 0; total_supply = 0 };
}

-- `componentPositions[c]` and `externalPositions[m]` written anew.
abbrev pub put_position : SetToken → ℕ → ComponentPosition → SetToken
put_position t c p = record t { component_positions = update t.component_positions c p }

abbrev pub put_external : SetToken → ℕ → ℕ → ExternalPosition → SetToken
put_external t c m e = put_position t c (record (t.component_positions c) {
  external_positions = update (t.component_positions c).external_positions m e;
})

module _ (is_module : ℕ → Bool) where
  unfoldable pub add_component : SetToken → ℕ → ℕ → Result SetToken
  add_component t sender component = do
    privileged is_module t sender
    require (not (is_component t component)) "Must not be component"
    ok (record t { components = t.components ++ component ∷ [] })

  unfoldable pub remove_component : SetToken → ℕ → ℕ → Result SetToken
  remove_component t sender component = do
    privileged is_module t sender
    components ← remove_storage t.components component
    ok (record t { components = components })

  unfoldable pub add_external_position_module : SetToken → ℕ → ℕ → ℕ → Result SetToken
  add_external_position_module t sender component position_module = do
    privileged is_module t sender
    require (not (is_external_position_module t component position_module)) "Module already added"
    let p = t.component_positions component
    ok (
        put_position t component (record p {
          external_position_modules = p.external_position_modules ++ position_module ∷ [];
        }))

  unfoldable pub remove_external_position_module : SetToken → ℕ → ℕ → ℕ → Result SetToken
  remove_external_position_module t sender component position_module = do
    privileged is_module t sender
    let p = t.component_positions component
    modules ← remove_storage p.external_position_modules position_module
    ok (
        put_position t component (record p {
          external_position_modules = modules;
          external_positions =
              update p.external_positions position_module
                (record { virtual_unit = pos 0; data_bytes = "" });
        }))

  unfoldable pub edit_external_position_data : SetToken → ℕ → ℕ → ℕ → String → Result SetToken
  edit_external_position_data t sender component position_module data_bytes = do
    privileged is_module t sender
    let e = (t.component_positions component).external_positions position_module
    ok (put_external t component position_module (record e { data_bytes = data_bytes }))

  unfoldable pub lock : SetToken → ℕ → Result SetToken
  lock t sender = do
    validate_only_module is_module t sender
    require (not t.is_locked) "Must not be locked"
    ok (record t { locker = sender; is_locked = true })

  unfoldable pub unlock : SetToken → ℕ → Result SetToken
  unlock t sender = do
    validate_only_module is_module t sender
    require t.is_locked "Must be locked"
    require (t.locker == sender) "Must be locker"
    ok (record t { locker = 0; is_locked = false })

  unfoldable pub add_module : SetToken → ℕ → ℕ → Result SetToken
  add_module t sender module_address = do
    validate_only_manager t sender
    require (is_none_state (t.module_states module_address)) "Module must not be added"
    require (is_module module_address) "Must be enabled on Controller"
    ok (record t { module_states = update t.module_states module_address pending })

  -- `_target.functionCallWithValue(_data, _value)` is any contract's code: its answer, with what
  -- that code may change outside the token, is a parameter.
  unfoldable pub invoke :
      {A : Type 0}
      → (ℕ → ℕ → String → Result A)
      → SetToken
      → ℕ
      → ℕ
      → ℕ
      → String
      → Result (SetToken × A)
  invoke call_with_value t sender target value data_bytes = do
    privileged is_module t sender
    return_value ← call_with_value target value data_bytes
    ok (t, return_value)

  module _ ⦃ssm : SignedSafeMath⦄ where
    unfoldable pub edit_default_position_unit : SetToken → ℕ → ℕ → ℤ → Result SetToken
    edit_default_position_unit t sender component real_unit = do
      privileged is_module t sender
      virtual_unit ← convert_real_to_virtual_unit t real_unit
      ok (
          put_position t component
            (record (t.component_positions component) { virtual_unit = virtual_unit }))

    unfoldable pub edit_external_position_unit : SetToken → ℕ → ℕ → ℕ → ℤ → Result SetToken
    edit_external_position_unit t sender component position_module real_unit = do
      privileged is_module t sender
      virtual_unit ← convert_real_to_virtual_unit t real_unit
      let e = (t.component_positions component).external_positions position_module
      ok (put_external t component position_module (record e { virtual_unit = virtual_unit }))

    unfoldable pub edit_position_multiplier : ⦃sc : SafeCast⦄ → SetToken → ℕ → ℤ → Result SetToken
    edit_position_multiplier t sender new_multiplier = do
      privileged is_module t sender
      validate_new_multiplier t new_multiplier
      ok (record t { position_multiplier = new_multiplier })

  module _ ⦃erc20 : Erc20⦄ where
    unfoldable pub mint : SetToken → ℕ → ℕ → ℕ → Result SetToken
    mint t sender account quantity = do
      privileged is_module t sender
      ledger ← erc20.mint t.ledger account quantity
      ok (record t { ledger = ledger })

    unfoldable pub burn : SetToken → ℕ → ℕ → ℕ → Result SetToken
    burn t sender account quantity = do
      privileged is_module t sender
      ledger ← erc20.burn t.ledger account quantity
      ok (record t { ledger = ledger })

-- `IModule(_module).removeModule()` is the module's code, which may call the token back: whether it
-- reverts, and the token that it leaves, are a parameter.
unfoldable pub remove_module : (SetToken → ℕ → Result SetToken) → SetToken → ℕ → ℕ → Result SetToken
remove_module hook t sender module_address = do
  validate_only_manager t sender
  require (not t.is_locked) "Only when unlocked"
  require (is_initialized_state (t.module_states module_address)) "Module must be added"
  left ← hook t module_address
  modules ← remove_storage left.modules module_address
  ok (record left {
    module_states = update left.module_states module_address none_state;
    modules = modules;
  })

unfoldable pub remove_pending_module : SetToken → ℕ → ℕ → Result SetToken
remove_pending_module t sender module_address = do
  validate_only_manager t sender
  require (not t.is_locked) "Only when unlocked"
  require (is_pending_state (t.module_states module_address)) "Module must be pending"
  ok (record t { module_states = update t.module_states module_address none_state })

unfoldable pub initialize_module : SetToken → ℕ → Result SetToken
initialize_module t sender = do
  require (not t.is_locked) "Only when unlocked"
  require (is_pending_state (t.module_states sender)) "Module must be pending"
  ok (record t {
    module_states = update t.module_states sender initialized;
    modules = t.modules ++ sender ∷ [];
  })

unfoldable pub set_manager : SetToken → ℕ → ℕ → Result SetToken
set_manager t sender manager = do
  validate_only_manager t sender
  require (not t.is_locked) "Only when unlocked"
  ok (record t { manager = manager })
