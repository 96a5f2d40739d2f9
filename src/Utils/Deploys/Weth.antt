-- ===== src/Utils/Deploys/Weth.antt =====
-- utils/deploys/deployExternal.ts: the contracts of Weth.
use set_protocol_v2_contract.Common.{[]}
use set_protocol_v2_contract.Utils.Types.{Address}
use set_protocol_v2_contract.Utils.Network.{Network, Async, deploy}

module _ ⦃net : Network⦄ where
  unfoldable pub deploy_weth : Async Address
  deploy_weth = deploy "WETH9" []
