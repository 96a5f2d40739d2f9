-- ===== src/Contracts/Controller.antt =====
-- contracts/protocol/Controller.sol: the registry of the system's contracts. `Ownable` is a library's:
-- its modifier is the parameter `only_owner`, a function of the sender.
pub mod Calls
pub mod Inversion
pub mod Initialization
pub mod Consistency
pub mod History
pub mod Launch
pub mod Enabling
pub mod Registry
pub mod Refinement
use set_protocol_v2_contract.Common.{
  ℕ, Bool, true, false, not, ◌||◌, List, [], ◌∷◌, ◌++◌, Result, ok, err, reason, ◌>>=◌, ◌>>◌,
  require, if◌then◌else◌, ◌==◌,
}
use set_protocol_v2_contract.Common.Lists.{length}
use set_protocol_v2_contract.Contracts.AddressArrayUtils.{remove}
use set_protocol_v2_contract.Contracts.Storage.{update}

pub record Controller : Type 0 where
  pub sets : List ℕ
  pub factories : List ℕ
  pub modules : List ℕ
  pub resources : List ℕ
  pub is_set : ℕ → Bool
  pub is_factory : ℕ → Bool
  pub is_module : ℕ → Bool
  pub is_resource : ℕ → Bool
  pub fees : ℕ → ℕ → ℕ
  pub resource_id : ℕ → ℕ
  pub fee_recipient : ℕ
  pub is_initialized : Bool

-- The constructor.
unfoldable pub create : ℕ → Controller
create fee_recipient = record {
  sets = [];
  factories = [];
  modules = [];
  resources = [];
  is_set = λ _. false;
  is_factory = λ _. false;
  is_module = λ _. false;
  is_resource = λ _. false;
  fees = λ _ _. 0;
  resource_id = λ _. 0;
  fee_recipient = fee_recipient;
  is_initialized = false;
}

-- The loops of `initialize` over the factories and over the modules.
unfoldable pub enable_all : List ℕ → (ℕ → Bool) → Result (ℕ → Bool)
enable_all [] m = ok m
enable_all (a ∷ rest) m = do
  require (not (a == 0)) "Zero address submitted."
  enable_all rest (update m a true)

-- Its loop over the resources and their IDs, on the two mappings.
unfoldable pub enable_resources :
    List ℕ → List ℕ → (ℕ → Bool) → (ℕ → ℕ) → Result ((ℕ → Bool) × (ℕ → ℕ))
enable_resources [] ids m by_id = ok (m, by_id)
enable_resources (a ∷ rest) [] m by_id = ok (m, by_id)
enable_resources (a ∷ rest) (i ∷ ids) m by_id = do
  require (not (a == 0)) "Zero address submitted."
  require (by_id i == 0) "Resource ID already exists"
  enable_resources rest ids (update m a true) (update by_id i a)

unfoldable pub only_initialized : Controller → Result (Unit {0})
only_initialized c = require c.is_initialized "Contract must be initialized."

unfoldable pub only_factory : Controller → ℕ → Result (Unit {0})
only_factory c sender = require (c.is_factory sender) "Only valid factories can call"

unfoldable pub add_set : Controller → ℕ → ℕ → Result Controller
unfolding only_initialized only_factory
add_set c sender set_token = do
  only_initialized c
  only_factory c sender
  require (not (c.is_set set_token)) "Set already exists"
  ok (record c { is_set = update c.is_set set_token true; sets = c.sets ++ set_token ∷ [] })

-- `fees[_module][_feeType] = _newFeePercentage`
unfoldable pub set_fee : Controller → ℕ → ℕ → ℕ → Controller
set_fee c module_address fee_type fee = record c {
  fees = update c.fees module_address (update (c.fees module_address) fee_type fee);
}

module _ (only_owner : ℕ → Result (Unit {0})) where
  unfoldable pub initialize : Controller → ℕ → List ℕ → List ℕ → List ℕ → List ℕ → Result Controller
  initialize c sender factories modules resources resource_ids = do
    only_owner sender
    require (not c.is_initialized) "Controller is already initialized"
    require (length resources == length resource_ids) "Array lengths do not match."
    is_factory ← enable_all factories c.is_factory
    is_module ← enable_all modules c.is_module
    maps ← enable_resources resources resource_ids c.is_resource c.resource_id
    ok (record c {
      factories = factories;
      modules = modules;
      resources = resources;
      is_factory = is_factory;
      is_module = is_module;
      is_resource = maps.0;
      resource_id = maps.1;
      is_initialized = true;
    })

  unfoldable pub remove_set : Controller → ℕ → ℕ → Result Controller
  unfolding only_initialized
  remove_set c sender set_token = do
    only_initialized c
    only_owner sender
    require (c.is_set set_token) "Set does not exist"
    sets ← remove c.sets set_token
    ok (record c { sets = sets; is_set = update c.is_set set_token false })

  unfoldable pub add_factory : Controller → ℕ → ℕ → Result Controller
  unfolding only_initialized
  add_factory c sender factory = do
    only_initialized c
    only_owner sender
    require (not (c.is_factory factory)) "Factory already exists"
    ok (record c {
      is_factory = update c.is_factory factory true;
      factories = c.factories ++ factory ∷ [];
    })

  unfoldable pub remove_factory : Controller → ℕ → ℕ → Result Controller
  unfolding only_initialized
  remove_factory c sender factory = do
    only_initialized c
    only_owner sender
    require (c.is_factory factory) "Factory does not exist"
    factories ← remove c.factories factory
    ok (record c { factories = factories; is_factory = update c.is_factory factory false })

  unfoldable pub add_module : Controller → ℕ → ℕ → Result Controller
  unfolding only_initialized
  add_module c sender module_address = do
    only_initialized c
    only_owner sender
    require (not (c.is_module module_address)) "Module already exists"
    ok (record c {
      is_module = update c.is_module module_address true;
      modules = c.modules ++ module_address ∷ [];
    })

  unfoldable pub remove_module : Controller → ℕ → ℕ → Result Controller
  unfolding only_initialized
  remove_module c sender module_address = do
    only_initialized c
    only_owner sender
    require (c.is_module module_address) "Module does not exist"
    modules ← remove c.modules module_address
    ok (record c { modules = modules; is_module = update c.is_module module_address false })

  unfoldable pub add_resource : Controller → ℕ → ℕ → ℕ → Result Controller
  unfolding only_initialized
  add_resource c sender resource id = do
    only_initialized c
    only_owner sender
    require (not (c.is_resource resource)) "Resource already exists"
    require (c.resource_id id == 0) "Resource ID already exists"
    ok (record c {
      is_resource = update c.is_resource resource true;
      resource_id = update c.resource_id id resource;
      resources = c.resources ++ resource ∷ [];
    })

  unfoldable pub remove_resource : Controller → ℕ → ℕ → Result Controller
  unfolding only_initialized
  remove_resource c sender id = do
    only_initialized c
    only_owner sender
    let resource_to_remove = c.resource_id id
    require (not (resource_to_remove == 0)) "Resource does not exist"
    resources ← remove c.resources resource_to_remove
    ok (record c {
      resources = resources;
      resource_id = update c.resource_id id 0;
      is_resource = update c.is_resource resource_to_remove false;
    })

  unfoldable pub add_fee : Controller → ℕ → ℕ → ℕ → ℕ → Result Controller
  unfolding only_initialized
  add_fee c sender module_address fee_type new_fee_percentage = do
    only_initialized c
    only_owner sender
    require (c.is_module module_address) "Module does not exist"
    require (c.fees module_address fee_type == 0) "Fee type already exists on module"
    ok (set_fee c module_address fee_type new_fee_percentage)

  unfoldable pub edit_fee : Controller → ℕ → ℕ → ℕ → ℕ → Result Controller
  unfolding only_initialized
  edit_fee c sender module_address fee_type new_fee_percentage = do
    only_initialized c
    only_owner sender
    require (c.is_module module_address) "Module does not exist"
    require (not (c.fees module_address fee_type == 0)) "Fee type does not exist on module"
    ok (set_fee c module_address fee_type new_fee_percentage)

  unfoldable pub edit_fee_recipient : Controller → ℕ → ℕ → Result Controller
  unfolding only_initialized
  edit_fee_recipient c sender new_fee_recipient = do
    only_initialized c
    only_owner sender
    require (not (new_fee_recipient == 0)) "Address must not be 0"
    ok (record c { fee_recipient = new_fee_recipient })

-- The constants of contracts/protocol/lib/ResourceIdentifier.sol and the reads by them.
unfoldable pub get_integration_registry : Controller → ℕ
get_integration_registry c = c.resource_id 0

unfoldable pub get_price_oracle : Controller → ℕ
get_price_oracle c = c.resource_id 1

unfoldable pub get_set_valuer : Controller → ℕ
get_set_valuer c = c.resource_id 2

unfoldable pub get_module_fee : Controller → ℕ → ℕ → ℕ
get_module_fee c module_address fee_type = c.fees module_address fee_type

-- `this` is the controller's own address.
unfoldable pub is_system_contract : Controller → ℕ → ℕ → Bool
is_system_contract c this contract_address =
    c.is_set contract_address
    || c.is_module contract_address
    || c.is_resource contract_address
    || c.is_factory contract_address
    || contract_address == this
