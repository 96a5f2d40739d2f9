-- ===== src/Contracts/SetToken/Inversion.antt =====
-- contracts/protocol/SetToken.sol: the state that a successful call leaves.
use set_protocol_v2_contract.Common.{
  ℕ, String, Bool, true, false, List, [], ◌∷◌, ◌++◌, Result, ok, ◌≡◌, inl, inr, arith, Result-cases,
}
use set_protocol_v2_contract.Common.Integer.{ℤ, pos}
use set_protocol_v2_contract.External.OpenZeppelin.{SignedSafeMath, SafeCast, Erc20, Ledger}
use set_protocol_v2_contract.Contracts.AddressArrayUtils.{remove_storage}
use set_protocol_v2_contract.Contracts.Storage.{update}
use set_protocol_v2_contract.Contracts.SetToken.State.{
  SetToken, none_state, pending, initialized, is_component, is_external_position_module,
  validate_only_module,
}
use set_protocol_v2_contract.Contracts.SetToken.Units.{
  convert_real_to_virtual_unit, validate_new_multiplier,
}
use set_protocol_v2_contract.Contracts.SetToken.Operations.{
  add_component, remove_component, edit_default_position_unit, add_external_position_module,
  remove_external_position_module, edit_external_position_unit, edit_external_position_data,
  edit_position_multiplier, mint, burn, lock, unlock, add_module, remove_module,
  remove_pending_module, initialize_module, set_manager, put_position, put_external,
}

module _ (is_module : ℕ → Bool) where
  pub add_component_inversion :
      (t : SetToken) (sender c : ℕ) (t' : SetToken)
      → add_component is_module t sender c ≡ ok t'
      → (is_component t c ≡ false) × (t' ≡ record t { components = t.components ++ c ∷ [] })
  unfolding add_component
  add_component_inversion t sender c t' h = ground arith

  pub remove_component_inversion :
      (t : SetToken) (sender c : ℕ) (t' : SetToken)
      → remove_component is_module t sender c ≡ ok t'
      → (B : List ℕ) × (remove_storage t.components c ≡ ok B) × (t' ≡ record t { components = B })
  unfolding remove_component
  remove_component_inversion t sender c t' h = ground arith

  pub add_external_position_module_inversion :
      (t : SetToken) (sender c m : ℕ) (t' : SetToken)
      → add_external_position_module is_module t sender c m ≡ ok t'
      → (is_external_position_module t c m ≡ false)
        × (t'
            ≡ put_position t c (record (t.component_positions c) {
              external_position_modules =
                  (t.component_positions c).external_position_modules ++ m ∷ [];
            }))
  unfolding add_external_position_module
  add_external_position_module_inversion t sender c m t' h = ground arith

  pub remove_external_position_module_inversion :
      (t : SetToken) (sender c m : ℕ) (t' : SetToken)
      → remove_external_position_module is_module t sender c m ≡ ok t'
      → (B : List ℕ) × (remove_storage (t.component_positions c).external_position_modules m ≡ ok B)
        × (t'
            ≡ put_position t c (record (t.component_positions c) {
              external_position_modules = B;
              external_positions =
                  update
                    (t.component_positions c).external_positions
                    m
                    (record { virtual_unit = pos 0; data_bytes = "" });
            }))
  unfolding remove_external_position_module
  remove_external_position_module_inversion t sender c m t' h = ground arith

  pub lock_inversion :
      (t : SetToken) (sender : ℕ) (t' : SetToken)
      → lock is_module t sender ≡ ok t'
      → (t.module_states sender ≡ initialized)
        × (t.is_locked ≡ false)
        × (t' ≡ record t { locker = sender; is_locked = true })
  unfolding lock validate_only_module
  lock_inversion t sender t' h = ground arith

  pub unlock_inversion :
      (t : SetToken) (sender : ℕ) (t' : SetToken)
      → unlock is_module t sender ≡ ok t'
      → (t.locker ≡ sender) × (t' ≡ record t { locker = 0; is_locked = false })
  unfolding unlock
  unlock_inversion t sender t' h = ground arith

  pub add_module_inversion :
      (t : SetToken) (sender m : ℕ) (t' : SetToken)
      → add_module is_module t sender m ≡ ok t'
      → (t.module_states m ≡ none_state)
        × (t' ≡ record t { module_states = update t.module_states m pending })
  unfolding add_module
  add_module_inversion t sender m t' h = ground arith

  pub edit_external_position_data_inversion :
      (t : SetToken) (sender c m : ℕ) (d : String) (t' : SetToken)
      → edit_external_position_data is_module t sender c m d ≡ ok t'
      → t'
        ≡ put_external t c m
            (record ((t.component_positions c).external_positions m) { data_bytes = d })
  unfolding edit_external_position_data
  edit_external_position_data_inversion t sender c m d t' h = ground arith

  module _ ⦃ssm : SignedSafeMath⦄ where
    pub edit_default_position_unit_inversion :
        (t : SetToken) (sender c : ℕ) (u : ℤ) (t' : SetToken)
        → edit_default_position_unit is_module t sender c u ≡ ok t'
        → (v : ℤ) × (convert_real_to_virtual_unit t u ≡ ok v)
          × (t' ≡ put_position t c (record (t.component_positions c) { virtual_unit = v }))
    unfolding edit_default_position_unit
    edit_default_position_unit_inversion t sender c u t' h =
        elim (Result-cases (convert_real_to_virtual_unit t u)) [
          | inl (v, e) ↦ (v, e, ground arith)
          | inr (x, e) ↦ absurd (ground arith)
        ]

    pub edit_external_position_unit_inversion :
        (t : SetToken) (sender c m : ℕ) (u : ℤ) (t' : SetToken)
        → edit_external_position_unit is_module t sender c m u ≡ ok t'
        → (v : ℤ) × (convert_real_to_virtual_unit t u ≡ ok v)
          × (t'
              ≡ put_external t c m
                  (record ((t.component_positions c).external_positions m) { virtual_unit = v }))
    unfolding edit_external_position_unit
    edit_external_position_unit_inversion t sender c m u t' h =
        elim (Result-cases (convert_real_to_virtual_unit t u)) [
          | inl (v, e) ↦ (v, e, ground arith)
          | inr (x, e) ↦ absurd (ground arith)
        ]

    module _ ⦃sc : SafeCast⦄ where
      pub edit_position_multiplier_inversion :
          (t : SetToken) (sender : ℕ) (x : ℤ) (t' : SetToken)
          → edit_position_multiplier is_module t sender x ≡ ok t'
          → (validate_new_multiplier t x ≡ ok tt) × (t' ≡ record t { position_multiplier = x })
      unfolding edit_position_multiplier
      edit_position_multiplier_inversion t sender x t' h = ground arith

  module _ ⦃erc20 : Erc20⦄ where
    pub mint_inversion :
        (t : SetToken) (sender a q : ℕ) (t' : SetToken)
        → mint is_module t sender a q ≡ ok t'
        → (l : Ledger) × (erc20.mint t.ledger a q ≡ ok l) × (t' ≡ record t { ledger = l })
    unfolding mint
    mint_inversion t sender a q t' h = ground arith

    pub burn_inversion :
        (t : SetToken) (sender a q : ℕ) (t' : SetToken)
        → burn is_module t sender a q ≡ ok t'
        → (l : Ledger) × (erc20.burn t.ledger a q ≡ ok l) × (t' ≡ record t { ledger = l })
    unfolding burn
    burn_inversion t sender a q t' h = ground arith

pub remove_module_inversion :
    (hook : SetToken → ℕ → Result SetToken) (t : SetToken) (sender m : ℕ) (t' : SetToken)
    → remove_module hook t sender m ≡ ok t'
    → (left : SetToken) × (t.is_locked ≡ false)
      × (hook t m ≡ ok left)
      × ((B : List ℕ) × (remove_storage left.modules m ≡ ok B)
          × (t' ≡ record left {
            module_states = update left.module_states m none_state;
            modules = B;
          }))
unfolding remove_module
remove_module_inversion hook t sender m t' h = elim (Result-cases (hook t m)) [
  | inl (left, e) ↦ (left, ground arith, e, ground arith)
  | inr (x, e) ↦ absurd (ground arith)
]

pub remove_pending_module_inversion :
    (t : SetToken) (sender m : ℕ) (t' : SetToken)
    → remove_pending_module t sender m ≡ ok t'
    → (t.is_locked ≡ false)
      × (t.module_states m ≡ pending)
      × (t' ≡ record t { module_states = update t.module_states m none_state })
unfolding remove_pending_module
remove_pending_module_inversion t sender m t' h = ground arith

pub initialize_module_inversion :
    (t : SetToken) (sender : ℕ) (t' : SetToken)
    → initialize_module t sender ≡ ok t'
    → (t.is_locked ≡ false)
      × (t.module_states sender ≡ pending)
      × (t' ≡ record t {
        module_states = update t.module_states sender initialized;
        modules = t.modules ++ sender ∷ [];
      })
unfolding initialize_module
initialize_module_inversion t sender t' h = ground arith

pub set_manager_inversion :
    (t : SetToken) (sender m : ℕ) (t' : SetToken)
    → set_manager t sender m ≡ ok t'
    → (t.is_locked ≡ false) × (t' ≡ record t { manager = m })
unfolding set_manager
set_manager_inversion t sender m t' h = ground arith
