-- ===== src/Contracts/Controller/Registry.antt =====
-- contracts/protocol/Controller.sol as an abstract registry: four sets of addresses without an
-- order, and the maps of the IDs and the fees.
use set_protocol_v2_contract.Common.{
  ℕ, Bool, true, false, not, List, [], ◌∷◌, String, Result, ok, ◌>>=◌, ◌>>◌, require, ltb, ◌==◌,
}
use set_protocol_v2_contract.Common.Lists.{length, count}
use set_protocol_v2_contract.Contracts.Storage.{update}
use set_protocol_v2_contract.Contracts.Controller.{Controller}
use set_protocol_v2_contract.Contracts.Controller.Calls.{
  Call, initializes, adds_set, removes_set, adds_factory, removes_factory, adds_module,
  removes_module, adds_resource, removes_resource, adds_fee, edits_fee, edits_fee_recipient,
}

pub record Registry : Type 0 where
  pub sets : ℕ → Bool
  pub factories : ℕ → Bool
  pub modules : ℕ → Bool
  pub resources : ℕ → Bool
  pub ids : ℕ → ℕ
  pub fees : ℕ → ℕ → ℕ
  pub fee_recipient : ℕ
  pub is_initialized : Bool

-- The addresses that an array lists.
abbrev pub listed : List ℕ → ℕ → Bool
listed A a = ltb 0 (count a A)

-- The arrays are read as sets; the mappings beside them are forgotten.
abbrev pub registry_of : Controller → Registry
registry_of c = record {
  sets = listed c.sets;
  factories = listed c.factories;
  modules = listed c.modules;
  resources = listed c.resources;
  ids = c.resource_id;
  fees = c.fees;
  fee_recipient = c.fee_recipient;
  is_initialized = c.is_initialized;
}

abbrev pub join : (ℕ → Bool) → ℕ → String → Result (ℕ → Bool)
join members a message = do require (not (members a)) message; ok (update members a true)

abbrev pub leave : (ℕ → Bool) → ℕ → String → Result (ℕ → Bool)
leave members a message = do require (members a) message; ok (update members a false)

abbrev pub all_non_zero : List ℕ → Result (Unit {0})
all_non_zero [] = ok tt
all_non_zero (a ∷ rest) = do require (not (a == 0)) "Zero address submitted."; all_non_zero rest

-- Each resource gets its ID, which must be free.
abbrev pub assign : List ℕ → List ℕ → (ℕ → ℕ) → Result (ℕ → ℕ)
assign [] ids by_id = ok by_id
assign (a ∷ rest) [] by_id = ok by_id
assign (a ∷ rest) (i ∷ ids) by_id = do
  require (not (a == 0)) "Zero address submitted."
  require (by_id i == 0) "Resource ID already exists"
  assign rest ids (update by_id i a)

abbrev pub put_fee : Registry → ℕ → ℕ → ℕ → Registry
put_fee r module_address fee_type fee = record r {
  fees = update r.fees module_address (update (r.fees module_address) fee_type fee);
}

module _ (only_owner : ℕ → Result (Unit {0})) where
  abbrev pub as_owner : Registry → ℕ → Result (Unit {0})
  as_owner r sender = do require r.is_initialized "Contract must be initialized."; only_owner sender

  -- What each transaction promises.
  abbrev pub promised : Registry → ℕ → Call → Result Registry
  promised r sender (initializes factories modules resources ids) = do
    only_owner sender
    require (not r.is_initialized) "Controller is already initialized"
    require (length resources == length ids) "Array lengths do not match."
    all_non_zero factories
    all_non_zero modules
    by_id ← assign resources ids r.ids
    ok (record r {
      factories = listed factories;
      modules = listed modules;
      resources = listed resources;
      ids = by_id;
      is_initialized = true;
    })
  promised r sender (adds_set a) = do
    require r.is_initialized "Contract must be initialized."
    require (r.factories sender) "Only valid factories can call"
    sets ← join r.sets a "Set already exists"
    ok (record r { sets = sets })
  promised r sender (removes_set a) = do
    as_owner r sender
    sets ← leave r.sets a "Set does not exist"
    ok (record r { sets = sets })
  promised r sender (adds_factory a) = do
    as_owner r sender
    factories ← join r.factories a "Factory already exists"
    ok (record r { factories = factories })
  promised r sender (removes_factory a) = do
    as_owner r sender
    factories ← leave r.factories a "Factory does not exist"
    ok (record r { factories = factories })
  promised r sender (adds_module a) = do
    as_owner r sender
    modules ← join r.modules a "Module already exists"
    ok (record r { modules = modules })
  promised r sender (removes_module a) = do
    as_owner r sender
    modules ← leave r.modules a "Module does not exist"
    ok (record r { modules = modules })
  promised r sender (adds_resource a i) = do
    as_owner r sender
    resources ← join r.resources a "Resource already exists"
    require (r.ids i == 0) "Resource ID already exists"
    ok (record r { resources = resources; ids = update r.ids i a })
  promised r sender (removes_resource i) = do
    as_owner r sender
    require (not (r.ids i == 0)) "Resource does not exist"
    ok (record r { resources = update r.resources (r.ids i) false; ids = update r.ids i 0 })
  promised r sender (adds_fee m t p) = do
    as_owner r sender
    require (r.modules m) "Module does not exist"
    require (r.fees m t == 0) "Fee type already exists on module"
    ok (put_fee r m t p)
  promised r sender (edits_fee m t p) = do
    as_owner r sender
    require (r.modules m) "Module does not exist"
    require (not (r.fees m t == 0)) "Fee type does not exist on module"
    ok (put_fee r m t p)
  promised r sender (edits_fee_recipient a) = do
    as_owner r sender
    require (not (a == 0)) "Address must not be 0"
    ok (record r { fee_recipient = a })
