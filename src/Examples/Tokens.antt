-- ===== src/Examples/Tokens.antt =====
-- contracts/protocol/SetToken.sol on a token with one component.
use set_protocol_v2_contract.Common.{
  ℕ, suc, ◌+◌, ◌-◌, ◌*◌, ◌^◌, ◌<◌, ◌≤◌, ◌≡◌, ◌≢◌, refl, ◌||◌, true, false, [], ◌∷◌, ok, err, fault,
  ok_injective, subst, sym, ap, ◌∙◌, arith, ◌==◌, inl,
}
use set_protocol_v2_contract.Common.Integer.{pos, ◌*ℤ◌, quot}
use set_protocol_v2_contract.Common.Lists.{count}
use set_protocol_v2_contract.Contracts.AddressArrayUtils.{
  remove_storage, contains, index_of, index_loop, drop_last,
}
use set_protocol_v2_contract.Contracts.Storage.{update}
use set_protocol_v2_contract.Contracts.PreciseUnitMath.{
  conservative_precise_mul, conservative_precise_div, div_down, xor_is_negative, has_remainder,
}
use set_protocol_v2_contract.Contracts.SetToken.{
  SetToken, none_state, pending, initialized, no_position, put_position, create, make_pending,
  set_units, add_component, is_component, add_module, remove_module, initialize_module,
  edit_default_position_unit, edit_position_multiplier, lock, privileged, validate_only_module,
  validate_only_manager, validate_when_locked_only_locker, convert_real_to_virtual_unit,
  convert_virtual_to_real_unit, get_default_position_real_unit, validate_new_multiplier,
  get_positions_abs_minimum_virtual_unit, components_minimum, external_minimum, lower,
}
use set_protocol_v2_contract.Contracts.SetToken.Calls.{
  Outside, Call, apply, adds_component, adds_module, removes_module, initializes_module,
  edits_default_position_unit,
}
use set_protocol_v2_contract.Contracts.SetToken.Access.{
  IsAllowed, OnlyAddsModule, privileged_call-IsAllowed, locked-OnlyAddsModule,
}
use set_protocol_v2_contract.Contracts.SetToken.Preservation.{apply-IsValid}
use set_protocol_v2_contract.Contracts.SetToken.Validity.{IsValid}
use set_protocol_v2_contract.Contracts.SetToken.History.{Run, done, calls, reachable-IsValid}
use set_protocol_v2_contract.Contracts.SetToken.Abandoned.{IsAbandoned, remove_module-IsAbandoned}
use set_protocol_v2_contract.Contracts.SetToken.Rounding.{edit_default_position_unit-reads_back}
use set_protocol_v2_contract.Contracts.SetToken.Multiplier.{
  HasUnit, edit_position_multiplier-keeps_units,
}
use set_protocol_v2_contract.Examples.Instances.{signed_safe_math, safe_cast, erc20}

-- The modules 20 and 21 are enabled on the controller.
abbrev outside : Outside
outside = record {
  is_module = λ a. (a == 20) || (a == 21);
  hook = λ t _. ok t;
  call_with_value = λ _ _ _. err fault;
}

-- The component 5 with one unit, the manager 1, and the module 20, which holds the lock.
abbrev pub locked_token : SetToken
locked_token = record {
  manager = 1;
  locker = 20;
  modules = 20 ∷ [];
  module_states = update (update (λ _. none_state) 20 pending) 20 initialized;
  is_locked = true;
  components = 5 ∷ [];
  component_positions =
      update (λ _. no_position) 5 (record no_position { virtual_unit = pos (10 ^ 18) });
  position_multiplier = pos (10 ^ 18);
  ledger = record { balances = λ _. 0; total_supply = 0 };
}

abbrev with_pending : SetToken
with_pending = record locked_token { module_states = update locked_token.module_states 21 pending }

locked-OnlyAddsModule_example : OnlyAddsModule locked_token 1 (adds_module 21) with_pending
unfolding add_module validate_only_manager
locked-OnlyAddsModule_example =
    locked-OnlyAddsModule ⦃ssm = signed_safe_math⦄ ⦃sc = safe_cast⦄ ⦃erc20 = erc20⦄ outside
      locked_token 1 (adds_module 21) with_pending refl (λ e. ground arith) refl

-- The locker edits a unit: 3 units.
abbrev edited_token : SetToken
edited_token =
    put_position locked_token 5
      (record (locked_token.component_positions 5) { virtual_unit = pos (3 * 10 ^ 18) })

edits_unit :
    edit_default_position_unit outside.is_module ⦃ssm = signed_safe_math⦄ locked_token 20 5
      (pos (3 * 10 ^ 18))
    ≡ ok edited_token
unfolding edit_default_position_unit privileged validate_only_module
    validate_when_locked_only_locker convert_real_to_virtual_unit conservative_precise_div div_down
    xor_is_negative has_remainder ◌*ℤ◌ quot
edits_unit = refl

privileged_call-IsAllowed_example : IsAllowed outside locked_token 20
privileged_call-IsAllowed_example =
    privileged_call-IsAllowed ⦃ssm = signed_safe_math⦄ ⦃sc = safe_cast⦄ ⦃erc20 = erc20⦄ outside
      locked_token 20 (edits_default_position_unit 5 (pos (3 * 10 ^ 18))) edited_token refl
      edits_unit

edit_default_position_unit-reads_back_example :
    (r : ℕ) × (get_default_position_real_unit ⦃ssm = signed_safe_math⦄ edited_token 5 ≡ ok (pos r))
    × (r ≤ 3 * 10 ^ 18)
    × (3 * 10 ^ 18 * 10 ^ 18 < (r + 1) * 10 ^ 18 + suc (10 ^ 18 - 1))
edit_default_position_unit-reads_back_example =
    edit_default_position_unit-reads_back ⦃ssm = signed_safe_math⦄ outside.is_module locked_token 20
      5 (3 * 10 ^ 18) (10 ^ 18 - 1) edited_token refl edits_unit

-- The multiplier is halved.
abbrev halved_token : SetToken
halved_token = record locked_token { position_multiplier = pos (5 * 10 ^ 17) }

edit_position_multiplier-keeps_units_example :
    (m : ℕ) × (pos (5 * 10 ^ 17) ≡ pos m)
    × (0 < m)
    × ((c v : ℕ)
        → 0 < count c halved_token.components
        → HasUnit (halved_token.component_positions c) (suc v)
        → convert_virtual_to_real_unit ⦃ssm = signed_safe_math⦄ halved_token (pos (suc v))
          ≢ ok (pos 0))
unfolding edit_position_multiplier privileged validate_only_module validate_when_locked_only_locker
    validate_new_multiplier get_positions_abs_minimum_virtual_unit components_minimum
    external_minimum lower conservative_precise_mul div_down xor_is_negative has_remainder ◌*ℤ◌ quot
edit_position_multiplier-keeps_units_example =
    edit_position_multiplier-keeps_units ⦃ssm = signed_safe_math⦄ ⦃sc = safe_cast⦄ outside.is_module
      locked_token 20 (pos (5 * 10 ^ 17)) halved_token refl

abbrev pub new_token : SetToken
new_token = create (5 ∷ []) (pos (10 ^ 18) ∷ []) (20 ∷ []) 1

abbrev pub ready_token : SetToken
ready_token = record locked_token { is_locked = false; locker = 0 }

-- The module 20 is set up and removed; its `removeModule` calls the token back and adds a component.
abbrev calling_back : Outside
calling_back = record outside { hook = λ t m. add_component outside.is_module t m 6 }

abbrev extended_token : SetToken
extended_token = record ready_token { components = 5 ∷ 6 ∷ [] }

abbrev unlisted_token : SetToken
unlisted_token = record extended_token {
  modules = [];
  module_states = update ready_token.module_states 20 none_state;
}

adds_six : add_component outside.is_module ready_token 20 6 ≡ ok extended_token
unfolding add_component privileged validate_only_module validate_when_locked_only_locker
    is_component contains index_of index_loop
adds_six = refl

calls_back :
    (m : ℕ) (left : SetToken)
    → removes_module 20 ≡ removes_module m
    → calling_back.hook ready_token m ≡ ok left
    → add_component outside.is_module ready_token 20 6 ≡ ok left
calls_back m left same returns =
    let e : 20 ≡ m = cc in
    subst (λ x. add_component outside.is_module ready_token x 6 ≡ ok left) (sym e) returns

removes_twenty : remove_module calling_back.hook ready_token 1 20 ≡ ok unlisted_token
unfolding remove_module remove_storage index_of index_loop drop_last validate_only_manager
removes_twenty = rw adds_six refl

abbrev history :
    Run ⦃ssm = signed_safe_math⦄ ⦃sc = safe_cast⦄ ⦃erc20 = erc20⦄ new_token unlisted_token
unfolding create make_pending set_units initialize_module
history =
    calls outside new_token 20 initializes_module ready_token unlisted_token refl
      (λ m left e returns. absurd (cc))
      (calls calling_back ready_token 1 (removes_module 20) unlisted_token unlisted_token
        removes_twenty
        (λ m left e returns.
          calls outside ready_token 20 (adds_component 6) left left (calls_back m left e returns)
            (λ m' l e' r. absurd (cc)) (done left))
        (done unlisted_token))

left_unlocked :
    (m : ℕ) (left : SetToken)
    → removes_module 20 ≡ removes_module m
    → calling_back.hook ready_token m ≡ ok left
    → left.is_locked ≡ false
left_unlocked m left same returns =
    let e : extended_token ≡ left = ok_injective (sym adds_six ∙ calls_back m left same returns) in
    ap (λ (t : SetToken). t.is_locked) (sym e)

reachable-IsValid_example : IsValid unlisted_token
unfolding create history
reachable-IsValid_example =
    reachable-IsValid ⦃ssm = signed_safe_math⦄ ⦃sc = safe_cast⦄ ⦃erc20 = erc20⦄ (5 ∷ [])
      (pos (10 ^ 18) ∷ []) (20 ∷ []) 1 unlisted_token (λ a. ground arith) history
      (
        λ m left e returns. absurd (cc),
        (
          λ m left e returns.
              (λ free. left_unlocked m left e returns, (λ m' l e' r. absurd (cc), tt)),
          tt,
        ),
      )

-- The module 20 locks the token from its own `removeModule`.
abbrev locking : Outside
locking = record outside { hook = λ t m. lock outside.is_module t m }

abbrev lost_token : SetToken
lost_token = record locked_token {
  modules = [];
  module_states = update locked_token.module_states 20 none_state;
}

locks_again : lock outside.is_module ready_token 20 ≡ ok locked_token
unfolding lock validate_only_module
locks_again = refl

removes_locker : remove_module locking.hook ready_token 1 20 ≡ ok lost_token
unfolding remove_module remove_storage index_of index_loop drop_last validate_only_manager
removes_locker = rw locks_again refl

remove_module-IsAbandoned_example :
    (lost_token ≡ record locked_token {
      modules = lost_token.modules;
      module_states = lost_token.module_states;
    })
    × IsAbandoned lost_token
    × ((o : Outside) (anyone : ℕ) (call : Call) (after : SetToken)
        → apply ⦃ssm = signed_safe_math⦄ ⦃sc = safe_cast⦄ ⦃erc20 = erc20⦄ o lost_token anyone call
          ≡ ok after
        → OnlyAddsModule lost_token anyone call after)
remove_module-IsAbandoned_example =
    remove_module-IsAbandoned ⦃ssm = signed_safe_math⦄ ⦃sc = safe_cast⦄ ⦃erc20 = erc20⦄ locking
      ready_token 1 20 locked_token lost_token lost_token locks_again refl refl removes_locker
      (done lost_token)

locked_token-IsValid : IsValid locked_token
locked_token-IsValid = record {
  lock = inl (refl, refl);
  modules = λ a. ground arith;
  components = λ a. ground arith;
  externals = λ c a. ground arith;
}

apply-IsValid_example : IsValid with_pending
unfolding add_module validate_only_manager
apply-IsValid_example =
    apply-IsValid ⦃ssm = signed_safe_math⦄ ⦃sc = safe_cast⦄ ⦃erc20 = erc20⦄ outside locked_token 1
      (adds_module 21) with_pending locked_token-IsValid (λ m left e returns. absurd (cc)) refl
