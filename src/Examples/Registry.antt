-- ===== src/Examples/Registry.antt =====
-- contracts/protocol/Controller.sol at short histories.
use set_protocol_v2_contract.Common.{
  ℕ, ◌<◌, ◌≡◌, refl, false, true, [], ◌∷◌, Result, ok, err, reason, arith, ◌==◌, if◌then◌else◌,
  map_result,
}
use set_protocol_v2_contract.Common.Lists.{count}
use set_protocol_v2_contract.Contracts.Storage.{update}
use set_protocol_v2_contract.Contracts.AddressArrayUtils.{remove, index_of, pop}
use set_protocol_v2_contract.Contracts.Controller.{
  Controller, create, initialize, enable_all, enable_resources, remove_module, only_initialized,
}
use set_protocol_v2_contract.Contracts.Controller.Calls.{
  apply, initializes, adds_module, removes_module, run,
}
use set_protocol_v2_contract.Contracts.Controller.Consistency.{
  IsConsistent, create-IsConsistent, apply-IsConsistent,
}
use set_protocol_v2_contract.Contracts.Controller.History.{
  run-create-IsConsistent, duplicate_module-stays,
}
use set_protocol_v2_contract.Contracts.Controller.Registry.{registry_of, promised}
use set_protocol_v2_contract.Contracts.Controller.Refinement.{apply-refines_registry}
use set_protocol_v2_contract.Contracts.Controller.Enabling.{
  IsInitializedWith, initialize-IsInitializedWith,
}

abbrev owner_only : ℕ → Result (Unit {0})
owner_only sender = if sender == 1 then ok tt else err (reason "Ownable: caller is not the owner")

-- A new Controller after `initialize` with one factory and one module.
abbrev pub started : Controller
started = record {
  sets = [];
  factories = 10 ∷ [];
  modules = 20 ∷ [];
  resources = [];
  is_set = λ _. false;
  is_factory = update (λ _. false) 10 true;
  is_module = update (λ _. false) 20 true;
  is_resource = λ _. false;
  fees = λ _ _. 0;
  resource_id = λ _. 0;
  fee_recipient = 7;
  is_initialized = true;
}

apply-IsConsistent_example : IsConsistent started
unfolding create initialize enable_all enable_resources
apply-IsConsistent_example =
    apply-IsConsistent owner_only (create 7) 1 (initializes (10 ∷ []) (20 ∷ []) [] []) started
      (λ a. ground arith, λ a. ground arith, λ a. ground arith) (create-IsConsistent 7) refl

run-create-IsConsistent_example : IsConsistent (
    run owner_only (create 7) (
      (1, initializes (10 ∷ []) (20 ∷ []) [] [])
      ∷ (2, adds_module 21)
      ∷ (1, removes_module 20)
      ∷ []))
run-create-IsConsistent_example =
    run-create-IsConsistent owner_only 7
      ((1, initializes (10 ∷ []) (20 ∷ []) [] [])
        ∷ (2, adds_module 21)
        ∷ (1, removes_module 20)
        ∷ [])
      ((λ a. ground arith, λ a. ground arith, λ a. ground arith), (tt, (tt, tt)))

-- The module 20 is listed twice.
abbrev doubled : Controller
doubled = record started {
  factories = [];
  modules = 20 ∷ 20 ∷ [];
  is_factory = λ _. false;
  is_module = update (update (λ _. false) 20 true) 20 true;
}

abbrev disabled : Controller
disabled = record doubled {
  modules = 20 ∷ [];
  is_module = update (update (update (λ _. false) 20 true) 20 true) 20 false;
}

duplicate_module-stays_example : (disabled.is_module 20 ≡ false) × (0 < count 20 disabled.modules)
unfolding create initialize enable_all enable_resources remove_module only_initialized remove
    index_of pop
duplicate_module-stays_example =
    duplicate_module-stays owner_only (create 7) doubled disabled 1 20 [] (20 ∷ 20 ∷ []) [] []
      (ground arith) refl refl

initialize-IsInitializedWith_example :
    (d : Controller) × (initialize owner_only
        (create 7)
        1
        (10 ∷ 11 ∷ [])
        (20 ∷ 21 ∷ 22 ∷ [])
        (30 ∷ 31 ∷ [])
        (0 ∷ 5 ∷ [])
      ≡ ok d)
    × IsInitializedWith d (10 ∷ 11 ∷ []) (20 ∷ 21 ∷ 22 ∷ []) (30 ∷ 31 ∷ []) (0 ∷ 5 ∷ [])
initialize-IsInitializedWith_example =
    initialize-IsInitializedWith owner_only 7 1 (10 ∷ 11 ∷ []) (20 ∷ 21 ∷ 22 ∷ []) (30 ∷ 31 ∷ [])
      (0 ∷ 5 ∷ []) refl (λ a listed e. ground arith) (λ a listed e. ground arith)
      (λ a listed e. ground arith) refl (λ a. ground arith)

-- A new Controller and its `initialize`, as the registry has it.
apply-refines_registry_example :
    promised owner_only (registry_of (create 7)) 1 (initializes (10 ∷ []) (20 ∷ []) [] [])
    ≡ map_result registry_of (apply owner_only (create 7) 1 (initializes (10 ∷ []) (20 ∷ []) [] []))
apply-refines_registry_example =
    apply-refines_registry owner_only (create 7) 1 (initializes (10 ∷ []) (20 ∷ []) [] [])
      (λ a. ground arith, λ a. ground arith, λ a. ground arith) (create-IsConsistent 7)
