-- ===== src/Utils.antt =====
-- The TypeScript code of utils/.
pub mod Constants
pub mod Types
pub mod MathUtils
pub mod UnitsUtils
pub mod NavIssuanceModuleUtils
pub mod UniswapUtils
pub mod FeeModuleUtils
pub mod Network
pub mod BlockchainUtils
pub mod ProtocolUtils
pub mod Deploys
pub mod Fixtures
