-- ===== src/Contracts/SetToken/Access.antt =====
-- contracts/protocol/SetToken.sol: who may call what, and what a lock holds back.
use set_protocol_v2_contract.Common.{
  ℕ, true, false, Result, ok, err, ◌>>◌, ◌≡◌, ◌≢◌, ◌⊎◌, refl, arith,
}
use set_protocol_v2_contract.External.OpenZeppelin.{SignedSafeMath, SafeCast, Erc20}
use set_protocol_v2_contract.Contracts.Storage.{update}
use set_protocol_v2_contract.Contracts.SetToken.State.{
  SetToken, none_state, pending, initialized, privileged, validate_only_module,
  validate_only_manager,
}
use set_protocol_v2_contract.Contracts.SetToken.Operations.{
  add_component, remove_component, edit_default_position_unit, add_external_position_module,
  remove_external_position_module, edit_external_position_unit, edit_external_position_data,
  edit_position_multiplier, mint, burn, lock, unlock, add_module, remove_module,
  remove_pending_module, initialize_module, set_manager, invoke,
}
use set_protocol_v2_contract.Contracts.SetToken.Calls.{
  Call, adds_component, removes_component, adds_module, removes_module, removes_pending_module,
  sets_manager, edits_default_position_unit, adds_external_position_module,
  removes_external_position_module, mints, burns, edits_external_position_unit,
  edits_external_position_data, edits_position_multiplier, locks, unlocks, initializes_module,
  invokes, Outside, apply, is_privileged,
}

-- The sender is an initialized module that the controller enables, and no other module holds the lock.
pub record IsAllowed (o : Outside) (t : SetToken) (sender : ℕ) : Type 0 where
  pub is_initialized : t.module_states sender ≡ initialized
  pub is_enabled : o.is_module sender ≡ true
  pub not_locked_out : (t.is_locked ≡ false) ⊎ (sender ≡ t.locker)

pub privileged-IsAllowed :
    (o : Outside) (t : SetToken) (sender : ℕ)
    → privileged o.is_module t sender ≡ ok tt
    → IsAllowed o t sender
unfolding privileged
privileged-IsAllowed o t sender h = record {
  is_initialized = ground arith;
  is_enabled = ground arith;
  not_locked_out = ground arith;
}

guard_first {ℓ} :
    {A : Type ℓ} (m : Result (Unit {0})) (k : Result A) {a : A} → (m >> k) ≡ ok a → m ≡ ok tt
guard_first (ok u) k e = refl
guard_first (err x) k e = cc

-- What a lock leaves to the others.
abbrev pub OnlyAddsModule : SetToken → ℕ → Call → SetToken → Type 0
OnlyAddsModule t sender call t' =
    (m : ℕ) × (call ≡ adds_module m)
    × (sender ≡ t.manager)
    × (t.module_states m ≡ none_state)
    × (t' ≡ record t { module_states = update t.module_states m pending })

module _ ⦃ssm : SignedSafeMath⦄ ⦃sc : SafeCast⦄ ⦃erc20 : Erc20⦄ where
  privileged_first :
      (o : Outside) (t : SetToken) (sender : ℕ) (call : Call) (t' : SetToken)
      → is_privileged call ≡ true
      → apply o t sender call ≡ ok t'
      → privileged o.is_module t sender ≡ ok tt
  unfolding add_component remove_component edit_default_position_unit add_external_position_module
      remove_external_position_module edit_external_position_unit edit_external_position_data
      edit_position_multiplier mint burn invoke
  privileged_first o t s (adds_component c) t' p h = guard_first (privileged o.is_module t s) _ h
  privileged_first o t s (removes_component c) t' p h = guard_first (privileged o.is_module t s) _ h
  privileged_first o t s (edits_default_position_unit c u) t' p h =
      guard_first (privileged o.is_module t s) _ h
  privileged_first o t s (adds_external_position_module c m) t' p h =
      guard_first (privileged o.is_module t s) _ h
  privileged_first o t s (removes_external_position_module c m) t' p h =
      guard_first (privileged o.is_module t s) _ h
  privileged_first o t s (mints a q) t' p h = guard_first (privileged o.is_module t s) _ h
  privileged_first o t s (burns a q) t' p h = guard_first (privileged o.is_module t s) _ h
  privileged_first o t s (edits_external_position_unit c m u) t' p h =
      guard_first (privileged o.is_module t s) _ h
  privileged_first o t s (edits_external_position_data c m d) t' p h =
      guard_first (privileged o.is_module t s) _ h
  privileged_first o t s (edits_position_multiplier x) t' p h =
      guard_first (privileged o.is_module t s) _ h
  privileged_first o t s (invokes a v d) t' p h = ground arith
  privileged_first o t s _ t' p h = cc

  -- A privileged call succeeds only for a module that is initialized on the token and enabled on the
  -- controller, and while the token is locked only for the locker.
  pub privileged_call-IsAllowed :
      (o : Outside) (t : SetToken) (sender : ℕ) (call : Call) (t' : SetToken)
      → is_privileged call ≡ true
      → apply o t sender call ≡ ok t'
      → IsAllowed o t sender
  privileged_call-IsAllowed o t sender call t' p h =
      privileged-IsAllowed o t sender (privileged_first o t sender call t' p h)

  barred :
      (o : Outside) (t : SetToken) (sender : ℕ) (call : Call) (t' : SetToken)
      → is_privileged call ≡ true
      → t.is_locked ≡ true
      → sender ≢ t.locker
      → apply o t sender call ≡ ok t'
      → OnlyAddsModule t sender call t'
  barred o t sender call t' p locked other h =
      let a = privileged_call-IsAllowed o t sender call t' p h in
      absurd (ground (arith, a.not_locked_out))

  -- While a module holds the lock, every function of SetToken.sol reverts for anyone else, but for the
  -- manager's `addModule` of a module that was not added, which makes it pending and changes nothing else.
  pub locked-OnlyAddsModule :
      (o : Outside) (t : SetToken) (sender : ℕ) (call : Call) (t' : SetToken)
      → t.is_locked ≡ true
      → sender ≢ t.locker
      → apply o t sender call ≡ ok t'
      → OnlyAddsModule t sender call t'
  unfolding lock unlock add_module remove_module remove_pending_module initialize_module set_manager
      validate_only_module validate_only_manager
  locked-OnlyAddsModule o t s (adds_module m) t' l n h =
      (m, refl, ground arith, ground arith, ground arith)
  locked-OnlyAddsModule o t s (removes_module m) t' l n h = absurd (ground arith)
  locked-OnlyAddsModule o t s (removes_pending_module m) t' l n h = absurd (ground arith)
  locked-OnlyAddsModule o t s (sets_manager m) t' l n h = absurd (ground arith)
  locked-OnlyAddsModule o t s locks t' l n h = absurd (ground arith)
  locked-OnlyAddsModule o t s unlocks t' l n h = absurd (ground arith)
  locked-OnlyAddsModule o t s initializes_module t' l n h = absurd (ground arith)
  locked-OnlyAddsModule o t s (adds_component c) t' l n h =
      barred o t s (adds_component c) t' refl l n h
  locked-OnlyAddsModule o t s (removes_component c) t' l n h =
      barred o t s (removes_component c) t' refl l n h
  locked-OnlyAddsModule o t s (edits_default_position_unit c u) t' l n h =
      barred o t s (edits_default_position_unit c u) t' refl l n h
  locked-OnlyAddsModule o t s (adds_external_position_module c m) t' l n h =
      barred o t s (adds_external_position_module c m) t' refl l n h
  locked-OnlyAddsModule o t s (removes_external_position_module c m) t' l n h =
      barred o t s (removes_external_position_module c m) t' refl l n h
  locked-OnlyAddsModule o t s (mints a q) t' l n h = barred o t s (mints a q) t' refl l n h
  locked-OnlyAddsModule o t s (burns a q) t' l n h = barred o t s (burns a q) t' refl l n h
  locked-OnlyAddsModule o t s (edits_external_position_unit c m u) t' l n h =
      barred o t s (edits_external_position_unit c m u) t' refl l n h
  locked-OnlyAddsModule o t s (edits_external_position_data c m d) t' l n h =
      barred o t s (edits_external_position_data c m d) t' refl l n h
  locked-OnlyAddsModule o t s (edits_position_multiplier x) t' l n h =
      barred o t s (edits_position_multiplier x) t' refl l n h
  locked-OnlyAddsModule o t s (invokes a v d) t' l n h = barred o t s (invokes a v d) t' refl l n h
