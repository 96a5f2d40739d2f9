-- ===== src/Contracts/SetToken/History.antt =====
-- contracts/protocol/SetToken.sol: the states a token reaches from its constructor.
use set_protocol_v2_contract.Common.{
  ℕ, ◌≤◌, false, List, [], ◌∷◌, ok, ◌≡◌, inr, refl, arith, sym, subst,
}
use set_protocol_v2_contract.Common.Integer.{ℤ}
use set_protocol_v2_contract.Common.Lists.{count}
use set_protocol_v2_contract.External.OpenZeppelin.{SignedSafeMath, SafeCast, Erc20}
use set_protocol_v2_contract.Contracts.Storage.{update}
use set_protocol_v2_contract.Contracts.SetToken.State.{
  SetToken, ModuleState, ComponentPosition, none_state, pending, is_initialized_state, no_position,
}
use set_protocol_v2_contract.Contracts.SetToken.Operations.{create, make_pending, set_units}
use set_protocol_v2_contract.Contracts.SetToken.Calls.{Call, Outside, apply, removes_module}
use set_protocol_v2_contract.Contracts.SetToken.Preservation.{apply-IsValid}
use set_protocol_v2_contract.Contracts.SetToken.Validity.{IsValid, IsDistinctArray}

module _ ⦃ssm : SignedSafeMath⦄ ⦃sc : SafeCast⦄ ⦃erc20 : Erc20⦄ where
  -- Calls that succeed, of any sender, while what is outside may change between two. Within a
  -- `removeModule` the code of the module runs, and all it does to the token are calls of it in turn.
  pub data Run : SetToken → SetToken → Type 0 where
    done : (t : SetToken) → Run t t
    calls :
        (o : Outside) (t : SetToken) (sender : ℕ) (call : Call) (t' end : SetToken)
        → apply o t sender call ≡ ok t'
        → ((m : ℕ) (left : SetToken) → call ≡ removes_module m → o.hook t m ≡ ok left → Run t left)
        → Run t' end
        → Run t end

  -- A token whose constructor was given distinct components, and a history of it.
  pub data IsReachable (t : SetToken) : Type 0 where
    created :
        (components : List ℕ) (units : List ℤ) (modules : List ℕ) (manager : ℕ)
        → IsDistinctArray components
        → Run (create components units modules manager) t
        → IsReachable t

  -- No module whose code runs within a `removeModule` returns to a token that it has locked.
  abbrev pub ReturnsUnlocked : {t end : SetToken} → Run t end → Type 0
  ReturnsUnlocked (done t) = Unit
  ReturnsUnlocked (calls o t sender call t' end h back rest) =
      ((m : ℕ) (left : SetToken) (e : call ≡ removes_module m) (returns : o.hook t m ≡ ok left)
        → (t.is_locked ≡ false → left.is_locked ≡ false) × ReturnsUnlocked (back m left e returns))
      × ReturnsUnlocked rest

make_pending-none :
    (modules : List ℕ) (states : ℕ → ModuleState)
    → ((a : ℕ) → is_initialized_state (states a) ≡ false)
    → (a : ℕ) → is_initialized_state (make_pending modules states a) ≡ false
unfolding make_pending
make_pending-none [] states none a = none a
make_pending-none (m ∷ rest) states none a =
    make_pending-none rest (update states m pending) (λ b. ground (arith, none b)) a

set_units-externals :
    (components : List ℕ) (units : List ℤ) (positions : ℕ → ComponentPosition)
    → ((c : ℕ) → (positions c).external_position_modules ≡ [])
    → (c : ℕ) → (set_units components units positions c).external_position_modules ≡ []
unfolding set_units
set_units-externals [] units positions none c = none c
set_units-externals (c' ∷ rest) [] positions none c = none c
set_units-externals (c' ∷ rest) (u ∷ units) positions none c =
    set_units-externals rest units
      (update positions c' (record (positions c') { virtual_unit = u }))
      (λ d. ground (arith, none d, none c')) c

create-IsValid :
    (components : List ℕ) (units : List ℤ) (modules : List ℕ) (manager : ℕ)
    → IsDistinctArray components
    → IsValid (create components units modules manager)
unfolding create
create-IsValid components units modules manager d = record {
  lock = inr (refl, refl);
  modules = λ a. ground (arith, make_pending-none modules (λ _. none_state) (λ b. refl) a);
  components = d;
  externals = λ c a.
      let none = set_units-externals components units (λ _. no_position) (λ b. refl) c in
      subst (λ A. count a A ≤ 1) (sym none) (ground arith);
}

module _ ⦃ssm : SignedSafeMath⦄ ⦃sc : SafeCast⦄ ⦃erc20 : Erc20⦄ where
  run-IsValid : (t end : SetToken) (r : Run t end) → ReturnsUnlocked r → IsValid t → IsValid end
  run-IsValid t _ (done _) u v = v
  run-IsValid t end (calls o _ sender call t' _ h back rest) (inner, later) v =
      run-IsValid t' end rest later (
        apply-IsValid o t sender call t' v
          (λ m left e returns.
            let (free, deeper) = inner m left e returns in
            (run-IsValid t left (back m left e returns) deeper v, free))
          h)

  -- A token that is created with distinct components, as `SetTokenCreator.create` checks, is valid
  -- after any history of successful calls, those included that a module makes from its own
  -- `removeModule`, provided that none of these modules returns to a token that it has locked: the lock is held by
  -- an initialized module, `modules` lists exactly the initialized modules, and no component and no
  -- external position module is listed twice.
  pub reachable-IsValid :
      (components : List ℕ) (units : List ℤ) (modules : List ℕ) (manager : ℕ) (t : SetToken)
      → IsDistinctArray components
      → (r : Run (create components units modules manager) t) → ReturnsUnlocked r
      → IsValid t
  reachable-IsValid components units modules manager t distinct r unlocked =
      run-IsValid (create components units modules manager) t r unlocked
        (create-IsValid components units modules manager distinct)
