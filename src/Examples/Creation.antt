-- ===== src/Examples/Creation.antt =====
-- contracts/protocol/SetTokenCreator.sol: a token of two components.
use set_protocol_v2_contract.Common.{◌^◌, ◌≡◌, refl, true, [], ◌∷◌, ok}
use set_protocol_v2_contract.Common.Integer.{pos}
use set_protocol_v2_contract.Contracts.AddressArrayUtils.{has_duplicate, duplicate_loop, occurs_in}
use set_protocol_v2_contract.Contracts.Storage.{update}
use set_protocol_v2_contract.Contracts.Controller.{add_set, only_initialized, only_factory}
use set_protocol_v2_contract.Contracts.SetToken.{create}
use set_protocol_v2_contract.Contracts.SetTokenCreator.{
  Created, check_components, check_modules, create_set_token,
}
use set_protocol_v2_contract.Contracts.SetTokenCreator.Creation.{
  IsLaunched, create_set_token-IsLaunched,
}
use set_protocol_v2_contract.Examples.Instances.{signed_safe_math, safe_cast, erc20}
use set_protocol_v2_contract.Examples.Registry.{started}

abbrev two_components : Created
two_components = record {
  controller = record started { is_set = update started.is_set 100 true; sets = 100 ∷ [] };
  set_token = 100;
  token = create (5 ∷ 6 ∷ []) (pos (10 ^ 18) ∷ pos 1 ∷ []) (20 ∷ []) 1;
}

creates_two :
    create_set_token 10 started 100 (5 ∷ 6 ∷ []) (pos (10 ^ 18) ∷ pos 1 ∷ []) (20 ∷ []) 1
    ≡ ok two_components
unfolding create_set_token has_duplicate duplicate_loop occurs_in check_components check_modules
    add_set only_initialized only_factory
creates_two = refl

create_set_token-IsLaunched_example :
    IsLaunched ⦃ssm = signed_safe_math⦄ ⦃sc = safe_cast⦄ ⦃erc20 = erc20⦄ started 100
      (5 ∷ 6 ∷ [])
      (pos (10 ^ 18) ∷ pos 1 ∷ [])
      (20 ∷ [])
      1
      two_components
create_set_token-IsLaunched_example =
    create_set_token-IsLaunched ⦃ssm = signed_safe_math⦄ ⦃sc = safe_cast⦄ ⦃erc20 = erc20⦄ 10 started
      100 (5 ∷ 6 ∷ []) (pos (10 ^ 18) ∷ pos 1 ∷ []) (20 ∷ []) 1 two_components creates_two
