-- ===== src/Utils/Fixtures/System/Requests.antt =====
-- utils/fixtures/systemFixture.ts: the system that `initialize` leaves on the chain.
use set_protocol_v2_contract.Common.{
  ℕ, List, [], ◌∷◌, map, Result, ok, ◌≡◌, ◌≢◌, refl, arith, inl, inr, Option-cases,
}
use set_protocol_v2_contract.Common.Integer.{ℤ, pos, pos_part}
use set_protocol_v2_contract.External.Ethers.{EthersUtils}
use set_protocol_v2_contract.Utils.Types.{Address}
use set_protocol_v2_contract.Utils.Network.{Network, Request, sends, addresses, numbers, lift}
use set_protocol_v2_contract.Utils.Network.Results.{Yields, bind-Yields, final-Yields}
use set_protocol_v2_contract.Utils.Fixtures.System.{
  SystemFixture, initialize, initialize_with, fourth,
}
use set_protocol_v2_contract.Contracts.Controller.{Controller, create}
use set_protocol_v2_contract.Contracts.Controller.Launch.{IsLaunched, initialize-IsLaunched}
use set_protocol_v2_contract.Contracts.Controller.Calls.{Call, initializes, apply}

-- The request as the Controller decodes it: `decode` is the ABI's reading of an address.
pub data Decodes (decode : Address → ℕ) : Request → Call → Type 0 where
  initialize_call :
      (controller : Address) (f m r : List Address) (ids : List ℤ)
      → Decodes decode
          (sends controller "initialize"
            (addresses f ∷ addresses m ∷ addresses r ∷ numbers ids ∷ [])
            (pos 0))
          (initializes (map decode f) (map decode m) (map decode r) (map pos_part ids))

-- The addresses that were handed out are not the zero address.
pub record HasAddresses (decode : Address → ℕ) (f : SystemFixture) : Type 0 where
  pub factory : decode f.factory ≢ 0
  pub issuance : decode f.issuance_module ≢ 0
  pub streaming : decode f.streaming_fee_module ≢ 0
  pub nav : decode f.nav_issuance_module ≢ 0
  pub registry : decode f.integration_registry ≢ 0
  pub oracle : decode f.price_oracle ≢ 0
  pub valuer : decode f.set_valuer ≢ 0

-- The latest request is the call of `initialize` on the controller, with the fixture's addresses.
abbrev pub InitializesController : SystemFixture → List Request → Type 0
InitializesController f log =
    (earlier : List Request) × (log
      ≡ sends f.controller "initialize"
          (addresses (f.factory ∷ [])
            ∷ addresses (f.issuance_module ∷ f.streaming_fee_module ∷ f.nav_issuance_module ∷ [])
            ∷ addresses (f.integration_registry ∷ f.price_oracle ∷ f.set_valuer ∷ [])
            ∷ numbers (pos 0 ∷ pos 1 ∷ pos 2 ∷ [])
            ∷ [])
          (pos 0)
        ∷ earlier)

module _ ⦃net : Network⦄ ⦃utils : EthersUtils⦄ where
  initialize_with-Yields :
      (owner fee_recipient : Address)
      → Yields InitializesController (initialize_with owner fee_recipient)
  unfolding initialize_with
  initialize_with-Yields owner r = bind-Yields InitializesController _ _ λ controller.
      bind-Yields InitializesController _ _ λ issuance.
        bind-Yields InitializesController _ _ λ tokens.
          bind-Yields InitializesController _ _ λ unused.
            bind-Yields InitializesController _ _ λ factory.
              bind-Yields InitializesController _ _ λ oracle.
                bind-Yields InitializesController _ _ λ registry.
                  bind-Yields InitializesController _ _ λ valuer.
                    bind-Yields InitializesController _ _ λ streaming.
                      bind-Yields InitializesController _ _
                        λ nav. final-Yields InitializesController _ _ _ (λ log. (log, refl))

  initialize-Yields :
      (accounts : List Address) (owner : Address)
      → Yields InitializesController (initialize accounts owner)
  unfolding initialize lift
  initialize-Yields accounts owner log f log' e = elim (Option-cases (fourth accounts)) [
    | inl undefined ↦ absurd (ground (arith, undefined))
    | inr (r, listed) ↦ initialize_with-Yields owner r log f log' (rw (listed, initialize) at e)
  ]

  -- Whenever the fixture's `initialize` returns, its last request is a call of `initialize` on its
  -- controller that a new Controller accepts from its owner, provided that no address in it is zero; in
  -- the Controller it leaves, the fixture's factory and its three modules are enabled, and the registry,
  -- the price oracle and the valuer are found under the IDs by which the contracts look them up.
  pub initialize-IsLaunched_fixture :
      (only_owner : ℕ → Result (Unit {0})) (decode : Address → ℕ)
      (protocol_fee_recipient sender : ℕ) (accounts : List Address) (owner : Address)
      (log : List Request) (f : SystemFixture) (log' : List Request)
      → initialize accounts owner log ≡ ok (f, log')
      → only_owner sender ≡ ok tt
      → HasAddresses decode f
      → (latest : Request) × (earlier : List Request) × (log' ≡ latest ∷ earlier)
        × ((call : Call) × Decodes decode latest call
            × ((d : Controller) × (apply only_owner (create protocol_fee_recipient) sender call
                  ≡ ok d)
                × IsLaunched d
                    (decode f.factory)
                    (decode f.issuance_module)
                    (decode f.streaming_fee_module)
                    (decode f.nav_issuance_module)
                    (decode f.integration_registry)
                    (decode f.price_oracle)
                    (decode f.set_valuer)))
  initialize-IsLaunched_fixture only_owner decode recipient sender accounts owner log f log' e own
        nonzero =
      let (earlier, ends) = initialize-Yields accounts owner log f log' e in
      (
        _,
        earlier,
        ends,
        (
          _,
          initialize_call f.controller (f.factory ∷ [])
              (f.issuance_module ∷ f.streaming_fee_module ∷ f.nav_issuance_module ∷ [])
              (f.integration_registry ∷ f.price_oracle ∷ f.set_valuer ∷ [])
              (pos 0 ∷ pos 1 ∷ pos 2 ∷ []),
          initialize-IsLaunched only_owner recipient sender (decode f.factory)
              (decode f.issuance_module) (decode f.streaming_fee_module)
              (decode f.nav_issuance_module) (decode f.integration_registry) (decode f.price_oracle)
              (decode f.set_valuer) own nonzero.factory nonzero.issuance nonzero.streaming
              nonzero.nav nonzero.registry nonzero.oracle nonzero.valuer,
        ),
      )
