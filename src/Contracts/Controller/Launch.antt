-- ===== src/Contracts/Controller/Launch.antt =====
-- contracts/protocol/Controller.sol with contracts/protocol/lib/ResourceIdentifier.sol: the one
-- initialisation of a new Controller with a factory, three modules and the three resources.
use set_protocol_v2_contract.Common.{
  ℕ, ◌≡◌, refl, ◌≢◌, Bool, true, false, [], ◌∷◌, Result, ok, arith, ne→==,
}
use set_protocol_v2_contract.Contracts.Storage.{update}
use set_protocol_v2_contract.Contracts.Controller.{
  Controller, create, enable_all, enable_resources, initialize, get_integration_registry,
  get_price_oracle, get_set_valuer,
}

-- What the rest of the system reads of the registry.
pub record IsLaunched (c : Controller) (factory m1 m2 m3 registry oracle valuer : ℕ) : Type 0 where
  pub initialized : c.is_initialized ≡ true
  pub factory_enabled : c.is_factory factory ≡ true
  pub module1_enabled : c.is_module m1 ≡ true
  pub module2_enabled : c.is_module m2 ≡ true
  pub module3_enabled : c.is_module m3 ≡ true
  pub registry_found : get_integration_registry c ≡ registry
  pub oracle_found : get_price_oracle c ≡ oracle
  pub valuer_found : get_set_valuer c ≡ valuer

module _ (only_owner : ℕ → Result (Unit {0})) where
  -- `initialize` of a new Controller by its owner, with one factory, three modules and the three
  -- resources under the IDs 0, 1 and 2, none of them the zero address, succeeds; then the factory
  -- and the modules are enabled, and the registry, the price oracle and the valuer are found.
  pub initialize-IsLaunched :
      (fee_recipient sender factory m1 m2 m3 registry oracle valuer : ℕ)
      → only_owner sender ≡ ok tt
      → factory ≢ 0
      → m1 ≢ 0
      → m2 ≢ 0
      → m3 ≢ 0
      → registry ≢ 0
      → oracle ≢ 0
      → valuer ≢ 0
      → (d : Controller) × (initialize only_owner
            (create fee_recipient)
            sender
            (factory ∷ [])
            (m1 ∷ m2 ∷ m3 ∷ [])
            (registry ∷ oracle ∷ valuer ∷ [])
            (0 ∷ 1 ∷ 2 ∷ [])
          ≡ ok d)
        × IsLaunched d factory m1 m2 m3 registry oracle valuer
  unfolding initialize create enable_all enable_resources get_integration_registry get_price_oracle
      get_set_valuer
  initialize-IsLaunched r sender f m1 m2 m3 g o v own hf h1 h2 h3 hg ho hv =
      let none_yet : ℕ → Bool = λ _. false in
      (
        record (create r) {
          factories = f ∷ [];
          modules = m1 ∷ m2 ∷ m3 ∷ [];
          resources = g ∷ o ∷ v ∷ [];
          is_factory = update none_yet f true;
          is_module = update (update (update none_yet m1 true) m2 true) m3 true;
          is_resource = update (update (update none_yet g true) o true) v true;
          resource_id = update (update (update (λ _. 0) 0 g) 1 o) 2 v;
          is_initialized = true;
        },
        rw (
          own,
          ne→== f 0 hf,
          ne→== m1 0 h1,
          ne→== m2 0 h2,
          ne→== m3 0 h3,
          ne→== g 0 hg,
          ne→== o 0 ho,
          ne→== v 0 hv,
        ),
        record {
          initialized = refl;
          factory_enabled = ground arith;
          module1_enabled = ground arith;
          module2_enabled = ground arith;
          module3_enabled = ground arith;
          registry_found = refl;
          oracle_found = refl;
          valuer_found = refl;
        },
      )
