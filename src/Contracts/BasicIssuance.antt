-- ===== src/Contracts/BasicIssuance.antt =====
-- contracts/protocol/modules/BasicIssuanceModule.sol. The contracts it calls stand in one state: the
-- controller, the tokens by their address, the module's own mapping, and what lies outside the
-- repository, which holds the balances of the components.
pub mod Transfers
pub mod Loops
pub mod Outcomes
pub mod Backing
pub mod RoundTrip
pub mod Redemption
use set_protocol_v2_contract.Common.{
  ℕ, String, Bool, not, List, [], ◌∷◌, Result, ok, err, reason, fault, ◌>>=◌, ◌>>◌, require,
  if◌then◌else◌, ltb, ◌==◌,
}
use set_protocol_v2_contract.External.OpenZeppelin.{SafeMath, SignedSafeMath, SafeCast, Erc20}
use set_protocol_v2_contract.External.TokenContracts.{Erc20Contracts}
use set_protocol_v2_contract.Contracts.PreciseUnitMath.{precise_mul, precise_mul_ceil}
use set_protocol_v2_contract.Contracts.Storage.{update}
use set_protocol_v2_contract.Contracts.Controller.{Controller}
use set_protocol_v2_contract.Contracts.SetToken.{
  SetToken, get_default_position_real_unit, mint, burn, initialize_module,
}
use set_protocol_v2_contract.Contracts.ModuleBase.{
  require_set_manager, require_valid_and_initialized_set, require_valid_and_pending_set,
  transfer_from,
}
use set_protocol_v2_contract.Contracts.Invoke.{strict_invoke_transfer}
use set_protocol_v2_contract.Contracts.Position.{has_external_position}

pub record World (S : Type 0) : Type 0 where
  pub controller : Controller
  pub tokens : ℕ → SetToken
  pub manager_issuance_hook : ℕ → ℕ
  pub outside : S

-- `invokePreIssueHook` of the manager's contract, which may change anything: the hook's address, the
-- token, the quantity, the caller and the recipient.
abbrev pub PreIssueHook : Type 0 → Type 0
PreIssueHook S = World S → ℕ → ℕ → ℕ → ℕ → ℕ → Result (World S)

-- `removeModule` reverts.
unfoldable pub remove_module : {S : Type 0} → World S → Result (World S)
remove_module w = err (reason "The BasicIssuanceModule module cannot be removed")

-- It returns the world after the hook, and the hook's address or zero.
unfoldable pub call_pre_issue_hooks :
    {S : Type 0} → PreIssueHook S → World S → ℕ → ℕ → ℕ → ℕ → Result (World S × ℕ)
call_pre_issue_hooks invoke_pre_issue_hook w set_token quantity caller recipient =
    let pre_issue_hook = w.manager_issuance_hook set_token in
    if not (pre_issue_hook == 0)
    then (do
      w' ← invoke_pre_issue_hook w pre_issue_hook set_token quantity caller recipient
      ok (w', pre_issue_hook))
    else ok (w, 0)

-- `this` is the address of the module.
module _ {S : Type 0} (this : ℕ) where
  unfoldable pub initialize : World S → ℕ → ℕ → ℕ → Result (World S)
  initialize w sender set_token pre_issue_hook = do
    require_set_manager (w.tokens set_token) sender
    require_valid_and_pending_set w.controller this set_token (w.tokens set_token)
    t ← initialize_module (w.tokens set_token) this
    ok (record w {
      manager_issuance_hook = update w.manager_issuance_hook set_token pre_issue_hook;
      tokens = update w.tokens set_token t;
    })

module _ ⦃sm : SafeMath⦄ ⦃ssm : SignedSafeMath⦄ ⦃sc : SafeCast⦄ where
  -- One round of the loop of `getRequiredComponentUnitsForIssue`.
  unfoldable pub required_quantity : SetToken → ℕ → ℕ → Result ℕ
  required_quantity t quantity component = do
    require (not (has_external_position t component)) "Only default positions are supported"
    real_unit ← get_default_position_real_unit t component
    unit ← sc.to_uint real_unit
    precise_mul_ceil unit quantity

  unfoldable pub required_quantities : SetToken → ℕ → List ℕ → Result (List ℕ)
  required_quantities t quantity [] = ok []
  required_quantities t quantity (c ∷ rest) = do
    first ← required_quantity t quantity c
    others ← required_quantities t quantity rest
    ok (first ∷ others)

  unfoldable pub get_required_component_units_for_issue :
      {S : Type 0} → ℕ → World S → ℕ → ℕ → Result (List ℕ × List ℕ)
  get_required_component_units_for_issue this w set_token quantity = do
    let t = w.tokens set_token
    require_valid_and_initialized_set w.controller this set_token t
    notional_units ← required_quantities t quantity t.components
    ok (t.components, notional_units)

module _ {S : Type 0} ⦃sm : SafeMath⦄ ⦃tc : Erc20Contracts S⦄ where
  -- The loop of `issue`. The spender is the module; a read past the quantities reverts.
  unfoldable pub take_components : S → ℕ → ℕ → ℕ → List ℕ → List ℕ → Result S
  take_components s spender payer set_token [] quantities = ok s
  take_components s spender payer set_token (c ∷ rest) [] = err fault
  take_components s spender payer set_token (c ∷ rest) (q ∷ quantities) = do
    s' ← transfer_from s c spender payer set_token q
    take_components s' spender payer set_token rest quantities

  module _ (is_module : ℕ → Bool) ⦃ssm : SignedSafeMath⦄ ⦃sc : SafeCast⦄ where
    -- One round of the loop of `redeem`.
    unfoldable pub pay_component : S → ℕ → ℕ → SetToken → ℕ → ℕ → ℕ → Result S
    pay_component s sender set_token t quantity recipient component = do
      require (not (has_external_position t component)) "Only default positions are supported"
      real_unit ← get_default_position_real_unit t component
      unit ← sc.to_uint real_unit
      component_quantity ← precise_mul quantity unit
      strict_invoke_transfer is_module s sender set_token t component recipient component_quantity

    unfoldable pub pay_components : S → ℕ → ℕ → SetToken → ℕ → ℕ → List ℕ → Result S
    pay_components s sender set_token t quantity recipient [] = ok s
    pay_components s sender set_token t quantity recipient (c ∷ rest) = do
      s' ← pay_component s sender set_token t quantity recipient c
      pay_components s' sender set_token t quantity recipient rest

module _ {S : Type 0} (this : ℕ) ⦃sm : SafeMath⦄ ⦃ssm : SignedSafeMath⦄ ⦃sc : SafeCast⦄
    ⦃erc20 : Erc20⦄ ⦃tc : Erc20Contracts S⦄ where
  unfoldable pub issue : PreIssueHook S → World S → ℕ → ℕ → ℕ → ℕ → Result (World S)
  issue invoke_pre_issue_hook w sender set_token quantity recipient = do
    require_valid_and_initialized_set w.controller this set_token (w.tokens set_token)
    require (ltb 0 quantity) "Issue quantity must be > 0"
    hooked ← call_pre_issue_hooks invoke_pre_issue_hook w set_token quantity sender recipient
    let w' = hooked.0
    required ← get_required_component_units_for_issue this w' set_token quantity
    s ← take_components w'.outside this sender set_token required.0 required.1
    t ← mint w'.controller.is_module (w'.tokens set_token) this recipient quantity
    ok (record w' { outside = s; tokens = update w'.tokens set_token t })

  unfoldable pub redeem : World S → ℕ → ℕ → ℕ → ℕ → Result (World S)
  redeem w sender set_token quantity recipient = do
    require_valid_and_initialized_set w.controller this set_token (w.tokens set_token)
    require (ltb 0 quantity) "Redeem quantity must be > 0"
    t ← burn w.controller.is_module (w.tokens set_token) this sender quantity
    s ←
        pay_components w.controller.is_module w.outside this set_token t quantity recipient
          t.components
    ok (record w { outside = s; tokens = update w.tokens set_token t })
