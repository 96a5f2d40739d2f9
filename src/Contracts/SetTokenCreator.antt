-- ===== src/Contracts/SetTokenCreator.antt =====
-- contracts/protocol/SetTokenCreator.sol: the factory of the tokens. The name and the symbol of a
-- token, which nothing reads, are left out.
pub mod Creation
use set_protocol_v2_contract.Common.{
  ℕ, Bool, not, List, [], ◌∷◌, Result, ok, err, fault, ◌>>=◌, ◌>>◌, require, ltb, ◌==◌,
}
use set_protocol_v2_contract.Common.Integer.{ℤ, pos, ltb_ℤ}
use set_protocol_v2_contract.Common.Lists.{length}
use set_protocol_v2_contract.Contracts.AddressArrayUtils.{has_duplicate}
use set_protocol_v2_contract.Contracts.Controller.{Controller, add_set}
use set_protocol_v2_contract.Contracts.SetToken.{SetToken, create}

-- The loop over the components; a read past the units reverts.
unfoldable pub check_components : List ℕ → List ℤ → Result (Unit {0})
check_components [] units = ok tt
check_components (c ∷ rest) [] = err fault
check_components (c ∷ rest) (u ∷ units) = do
  require (not (c == 0)) "Component must not be null address"
  require (ltb_ℤ (pos 0) u) "Units must be greater than 0"
  check_components rest units

-- The loop over the modules.
unfoldable pub check_modules : (ℕ → Bool) → List ℕ → Result (Unit {0})
check_modules is_module [] = ok tt
check_modules is_module (m ∷ rest) = do
  require (is_module m) "Must be enabled module"
  check_modules is_module rest

-- What the transaction leaves: the controller, and the token at the address that it got.
pub record Created : Type 0 where
  pub controller : Controller
  pub set_token : ℕ
  pub token : SetToken

-- `this` is the address of the creator, and `address` is where the new contract is put.
unfoldable pub create_set_token : ℕ → Controller → ℕ → List ℕ → List ℤ → List ℕ → ℕ → Result Created
create_set_token this controller address components units modules manager = do
  require (ltb 0 (length components)) "Must have at least 1 component"
  require (length components == length units) "Component and unit lengths must be the same"
  duplicate ← has_duplicate components
  require (not duplicate) "Components must not have a duplicate"
  require (ltb 0 (length modules)) "Must have at least 1 module"
  require (not (manager == 0)) "Manager must not be empty"
  check_components components units
  check_modules controller.is_module modules
  let token = create components units modules manager
  controller' ← add_set controller this address
  ok (record { controller = controller'; set_token = address; token = token })
