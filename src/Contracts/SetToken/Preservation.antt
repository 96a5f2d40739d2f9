-- ===== src/Contracts/SetToken/Preservation.antt =====
-- contracts/protocol/SetToken.sol: every call keeps a token valid.
use set_protocol_v2_contract.Common.{
  ℕ, Bool, false, ok, ◌≡◌, inl, inr, refl, arith, ◌==◌, Bool-cases, ap, ◌∙◌, sym, subst, String,
}
use set_protocol_v2_contract.External.OpenZeppelin.{SignedSafeMath, SafeCast, Erc20}
use set_protocol_v2_contract.Contracts.Storage.{update}
use set_protocol_v2_contract.Contracts.SetToken.State.{
  SetToken, ModuleState, none_state, pending, initialized, is_initialized_state, is_component,
  is_external_position_module,
}
use set_protocol_v2_contract.Contracts.SetToken.Operations.{invoke}
use set_protocol_v2_contract.Contracts.SetToken.Calls.{
  Call, adds_component, removes_component, adds_module, removes_module, removes_pending_module,
  sets_manager, edits_default_position_unit, adds_external_position_module,
  removes_external_position_module, mints, burns, edits_external_position_unit,
  edits_external_position_data, edits_position_multiplier, locks, unlocks, initializes_module,
  invokes, Outside, apply,
}
use set_protocol_v2_contract.Contracts.SetToken.Inversion.{
  add_component_inversion, remove_component_inversion, add_module_inversion,
  remove_module_inversion, remove_pending_module_inversion, set_manager_inversion,
  edit_default_position_unit_inversion, add_external_position_module_inversion,
  remove_external_position_module_inversion, mint_inversion, burn_inversion,
  edit_external_position_unit_inversion, edit_external_position_data_inversion,
  edit_position_multiplier_inversion, lock_inversion, unlock_inversion, initialize_module_inversion,
}
use set_protocol_v2_contract.Contracts.SetToken.Validity.{
  IsValid, HoldsLock, push-IsDistinctArray, remove-IsDistinctArray, keep-ListsInitialized,
  push-ListsInitialized, remove-ListsInitialized, put_position-IsValid,
}

add-HoldsLock :
    (is_locked : Bool) (locker : ℕ) (states : ℕ → ModuleState) (m : ℕ)
    → states m ≡ none_state
    → HoldsLock is_locked locker states
    → HoldsLock is_locked locker (update states m pending)
add-HoldsLock is_locked locker states m was (inl (locked, held)) = elim (Bool-cases (locker == m)) [
  | inl here ↦
      let e : locker ≡ m = ground arith in
      let clash : initialized ≡ none_state = sym held ∙ ap states e ∙ was in absurd (cc)
  | inr other ↦ inl (locked, rw other held)
]
add-HoldsLock is_locked locker states m was (inr unlocked) = inr unlocked

free_lock :
    (t : SetToken)
    → t.is_locked ≡ false
    → IsValid t
    → (states : ℕ → ModuleState) → HoldsLock t.is_locked t.locker states
free_lock t free v states = elim v.lock [
  | inl (locked, held) ↦ absurd (cc)
  | inr unlocked ↦ inr unlocked
]

module _ ⦃ssm : SignedSafeMath⦄ ⦃sc : SafeCast⦄ ⦃erc20 : Erc20⦄ where
  invoke-unchanged :
      (o : Outside) (t : SetToken) (sender target value : ℕ) (d : String) (t' : SetToken)
      → apply o t sender (invokes target value d) ≡ ok t'
      → t' ≡ t
  unfolding invoke
  invoke-unchanged o t sender target value d t' h = ground arith

  -- A call that succeeds on a valid token leaves it valid: the lock is held by an initialized module,
  -- `modules` lists exactly the initialized modules, and no component and no external position module
  -- is listed twice. For a `removeModule` this supposes that the token to which the code of the
  -- removed module returns is valid, and not locked if it was not before.
  pub apply-IsValid :
      (o : Outside) (t : SetToken) (sender : ℕ) (call : Call) (t' : SetToken)
      → IsValid t
      → ((m : ℕ) (left : SetToken)
          → call ≡ removes_module m
          → o.hook t m ≡ ok left
          → IsValid left × (t.is_locked ≡ false → left.is_locked ≡ false))
      → apply o t sender call ≡ ok t'
      → IsValid t'
  unfolding is_component is_external_position_module
  apply-IsValid o t s (adds_component c) t' v back h =
      let (new, e) = add_component_inversion o.is_module t s c t' h in
      subst IsValid (sym e) (record {
        lock = v.lock;
        modules = v.modules;
        components = push-IsDistinctArray t.components c new v.components;
        externals = v.externals;
      })
  apply-IsValid o t s (removes_component c) t' v back h =
      let (B, removes, e) = remove_component_inversion o.is_module t s c t' h in
      subst IsValid (sym e) (record {
        lock = v.lock;
        modules = v.modules;
        components = remove-IsDistinctArray t.components c B removes v.components;
        externals = v.externals;
      })
  apply-IsValid o t s (adds_module m) t' v back h =
      let (was, e) = add_module_inversion o.is_module t s m t' h in
      subst IsValid (sym e) (record {
        lock = add-HoldsLock t.is_locked t.locker t.module_states m was v.lock;
        modules =
            keep-ListsInitialized t.modules t.module_states m pending (ap is_initialized_state was)
              v.modules;
        components = v.components;
        externals = v.externals;
      })
  apply-IsValid o t s (removes_module m) t' v back h =
      let (left, unlocked, e0, (B, removes, e)) = remove_module_inversion o.hook t s m t' h in
      let (kept, frees) = back m left refl e0 in
      subst IsValid (sym e) (record {
        lock = free_lock left (frees unlocked) kept (update left.module_states m none_state);
        modules = remove-ListsInitialized left.modules left.module_states m B removes kept.modules;
        components = kept.components;
        externals = kept.externals;
      })
  apply-IsValid o t s (removes_pending_module m) t' v back h =
      let (free, was, e) = remove_pending_module_inversion t s m t' h in
      subst IsValid (sym e) (record {
        lock = free_lock t free v (update t.module_states m none_state);
        modules =
            keep-ListsInitialized t.modules t.module_states m none_state
              (ap is_initialized_state was) v.modules;
        components = v.components;
        externals = v.externals;
      })
  apply-IsValid o t s (sets_manager m) t' v back h =
      let (free, e) = set_manager_inversion t s m t' h in
      subst IsValid (sym e) (record {
        lock = v.lock;
        modules = v.modules;
        components = v.components;
        externals = v.externals;
      })
  apply-IsValid o t s locks t' v back h =
      let (held, free, e) = lock_inversion o.is_module t s t' h in
      subst IsValid (sym e) (record {
        lock = inl (refl, held);
        modules = v.modules;
        components = v.components;
        externals = v.externals;
      })
  apply-IsValid o t s unlocks t' v back h =
      let (held, e) = unlock_inversion o.is_module t s t' h in
      subst IsValid (sym e) (record {
        lock = inr (refl, refl);
        modules = v.modules;
        components = v.components;
        externals = v.externals;
      })
  apply-IsValid o t s initializes_module t' v back h =
      let (free, was, e) = initialize_module_inversion t s t' h in
      subst IsValid (sym e) (record {
        lock = free_lock t free v (update t.module_states s initialized);
        modules = push-ListsInitialized t.modules t.module_states s was v.modules;
        components = v.components;
        externals = v.externals;
      })
  apply-IsValid o t s (mints a q) t' v back h =
      let (l, minted, e) = mint_inversion o.is_module t s a q t' h in
      subst IsValid (sym e) (record {
        lock = v.lock;
        modules = v.modules;
        components = v.components;
        externals = v.externals;
      })
  apply-IsValid o t s (burns a q) t' v back h =
      let (l, burned, e) = burn_inversion o.is_module t s a q t' h in
      subst IsValid (sym e) (record {
        lock = v.lock;
        modules = v.modules;
        components = v.components;
        externals = v.externals;
      })
  apply-IsValid o t s (edits_position_multiplier x) t' v back h =
      let (checked, e) = edit_position_multiplier_inversion o.is_module t s x t' h in
      subst IsValid (sym e) (record {
        lock = v.lock;
        modules = v.modules;
        components = v.components;
        externals = v.externals;
      })
  apply-IsValid o t s (invokes target value d) t' v back h =
      subst IsValid (sym (invoke-unchanged o t s target value d t' h)) v
  apply-IsValid o t s (edits_default_position_unit c u) t' v back h =
      let (x, converts, e) = edit_default_position_unit_inversion o.is_module t s c u t' h in
      subst IsValid (sym e) (put_position-IsValid t c _ (v.externals c) v)
  apply-IsValid o t s (edits_external_position_unit c m u) t' v back h =
      let (x, converts, e) = edit_external_position_unit_inversion o.is_module t s c m u t' h in
      subst IsValid (sym e) (put_position-IsValid t c _ (v.externals c) v)
  apply-IsValid o t s (edits_external_position_data c m d) t' v back h =
      let e = edit_external_position_data_inversion o.is_module t s c m d t' h in
      subst IsValid (sym e) (put_position-IsValid t c _ (v.externals c) v)
  apply-IsValid o t s (adds_external_position_module c m) t' v back h =
      let (new, e) = add_external_position_module_inversion o.is_module t s c m t' h in
      subst IsValid (sym e) (
        put_position-IsValid t c _
          (push-IsDistinctArray (t.component_positions c).external_position_modules m new
            (v.externals c))
          v)
  apply-IsValid o t s (removes_external_position_module c m) t' v back h =
      let (B, removes, e) = remove_external_position_module_inversion o.is_module t s c m t' h in
      subst IsValid (sym e) (
        put_position-IsValid t c _
          (remove-IsDistinctArray (t.component_positions c).external_position_modules m B removes
            (v.externals c))
          v)
