-- ===== src/Contracts/SetToken/Abandoned.antt =====
-- contracts/protocol/SetToken.sol: a lock whose holder has been removed.
use set_protocol_v2_contract.Common.{
  ℕ, true, false, ok, ◌≡◌, ◌≢◌, refl, arith, ap, ◌∙◌, ok_injective, sym, subst, inl, inr, ◌==◌,
  Bool-cases,
}
use set_protocol_v2_contract.External.OpenZeppelin.{SignedSafeMath, SafeCast, Erc20}
use set_protocol_v2_contract.Contracts.Storage.{update}
use set_protocol_v2_contract.Contracts.SetToken.State.{
  SetToken, none_state, pending, initialized, validate_only_module, validate_only_manager,
}
use set_protocol_v2_contract.Contracts.SetToken.Operations.{
  lock, unlock, add_module, remove_module, remove_pending_module, initialize_module, set_manager,
}
use set_protocol_v2_contract.Contracts.SetToken.Calls.{
  Call, adds_module, removes_module, removes_pending_module, sets_manager, locks, unlocks,
  initializes_module, Outside, apply, is_privileged,
}
use set_protocol_v2_contract.Contracts.SetToken.Access.{
  OnlyAddsModule, privileged_call-IsAllowed, locked-OnlyAddsModule,
}
use set_protocol_v2_contract.Contracts.SetToken.Inversion.{remove_module_inversion}
use set_protocol_v2_contract.Contracts.SetToken.History.{Run, done, calls}

-- The lock is held by a module that is not initialized.
abbrev pub IsAbandoned : SetToken → Type 0
IsAbandoned t = (t.is_locked ≡ true) × (t.module_states t.locker ≢ initialized)

-- Nothing but the states of modules changes.
abbrev pub IsFrozen : SetToken → SetToken → Type 0
IsFrozen t end = end ≡ record t { module_states = end.module_states }

module _ ⦃ssm : SignedSafeMath⦄ ⦃sc : SafeCast⦄ ⦃erc20 : Erc20⦄ where
  unprivileged-OnlyAddsModule :
      (o : Outside) (t : SetToken) (call : Call) (t' : SetToken)
      → is_privileged call ≡ false
      → IsAbandoned t
      → apply o t t.locker call ≡ ok t'
      → OnlyAddsModule t t.locker call t'
  unfolding lock unlock add_module remove_module remove_pending_module initialize_module set_manager
      validate_only_module validate_only_manager
  unprivileged-OnlyAddsModule o t (adds_module m) t' p (locked, gone) h =
      (m, refl, ground arith, ground arith, ground arith)
  unprivileged-OnlyAddsModule o t (removes_module m) t' p (locked, gone) h = absurd (ground arith)
  unprivileged-OnlyAddsModule o t (removes_pending_module m) t' p (locked, gone) h =
      absurd (ground arith)
  unprivileged-OnlyAddsModule o t (sets_manager m) t' p (locked, gone) h = absurd (ground arith)
  unprivileged-OnlyAddsModule o t locks t' p (locked, gone) h = absurd (ground arith)
  unprivileged-OnlyAddsModule o t unlocks t' p (locked, gone) h = absurd (ground arith)
  unprivileged-OnlyAddsModule o t initializes_module t' p (locked, gone) h = absurd (ground arith)
  unprivileged-OnlyAddsModule o t _ t' p a h = absurd (cc)

  locker-OnlyAddsModule :
      (o : Outside) (t : SetToken) (call : Call) (t' : SetToken)
      → IsAbandoned t
      → apply o t t.locker call ≡ ok t'
      → OnlyAddsModule t t.locker call t'
  locker-OnlyAddsModule o t call t' a h = elim (Bool-cases (is_privileged call)) [
    | inl p ↦ absurd (a.1 (privileged_call-IsAllowed o t t.locker call t' p h).is_initialized)
    | inr q ↦ unprivileged-OnlyAddsModule o t call t' q a h
  ]

  abandoned-OnlyAddsModule :
      (o : Outside) (t : SetToken) (sender : ℕ) (call : Call) (t' : SetToken)
      → IsAbandoned t
      → apply o t sender call ≡ ok t'
      → OnlyAddsModule t sender call t'
  abandoned-OnlyAddsModule o t sender call t' a h = elim (Bool-cases (sender == t.locker)) [
    | inl same ↦
        let e : sender ≡ t.locker = ground arith in
        subst (λ s. OnlyAddsModule t s call t') (sym e)
          (locker-OnlyAddsModule o t call t' a (subst (λ s. apply o t s call ≡ ok t') e h))
    | inr other ↦ locked-OnlyAddsModule o t sender call t' a.0 (λ e. ground arith) h
  ]

  add-IsAbandoned :
      (t : SetToken) (m : ℕ)
      → IsAbandoned t
      → IsAbandoned (record t { module_states = update t.module_states m pending })
  add-IsAbandoned t m (locked, gone) = elim (Bool-cases (t.locker == m)) [
    | inl here ↦ (locked, rw here (λ e. cc))
    | inr other ↦ (locked, rw other gone)
  ]

  run-IsFrozen : (t end : SetToken) → Run t end → IsAbandoned t → IsAbandoned end × IsFrozen t end
  run-IsFrozen t _ (done _) a = (a, refl)
  run-IsFrozen t end (calls o _ sender call t' _ h back rest) a =
      let (m, _, _, was, e) = abandoned-OnlyAddsModule o t sender call t' a h in
      let (still, frozen) =
        run-IsFrozen t' end rest (subst IsAbandoned (sym e) (add-IsAbandoned t m a)) in
      (still, frozen ∙ ap (λ (s : SetToken). record s { module_states = end.module_states }) e)

  -- Where the code of a module, run within its `removeModule`, returns to the token with the lock in
  -- its own hands, and the removal succeeds, the token is lost: after any further history of the
  -- functions of SetToken.sol the module holds the lock and is not initialized, they all revert for
  -- everyone but for the manager's `addModule`, and they have left the components, their positions,
  -- the multiplier, the shares and the manager as that code left them.
  pub remove_module-IsAbandoned :
      (o : Outside) (t : SetToken) (sender m : ℕ) (left t' end : SetToken)
      → o.hook t m ≡ ok left
      → left.is_locked ≡ true
      → left.locker ≡ m
      → apply o t sender (removes_module m) ≡ ok t'
      → Run t' end
      → (end ≡ record left { modules = end.modules; module_states = end.module_states })
        × IsAbandoned end
        × ((o' : Outside) (anyone : ℕ) (call : Call) (after : SetToken)
            → apply o' end anyone call ≡ ok after
            → OnlyAddsModule end anyone call after)
  remove_module-IsAbandoned o t sender m left t' end returns locked held h r =
      let (left', _, e', (B, removes, e)) = remove_module_inversion o.hook t sender m t' h in
      let same : left' ≡ left = ok_injective (sym e' ∙ returns) in
      let is : t'
          ≡ record left { module_states = update left.module_states m none_state; modules = B } =
        e
        ∙ ap
            (λ (x : SetToken). record x {
              module_states = update x.module_states m none_state;
              modules = B;
            })
            same in
      let abandoned : IsAbandoned t' = subst IsAbandoned (sym is) (locked, λ c. ground arith) in
      let (still, frozen) = run-IsFrozen t' end r abandoned in
      let flat : end ≡ record left { module_states = end.module_states; modules = B } =
        frozen ∙ ap (λ (x : SetToken). record x { module_states = end.module_states }) is in
      let listed : end.modules ≡ B = ap (λ (x : SetToken). x.modules) flat in
      (
        subst (λ b. end ≡ record left { modules = b; module_states = end.module_states })
            (sym listed) flat,
        still,
        λ o' anyone call after h'. abandoned-OnlyAddsModule o' end anyone call after still h',
      )
