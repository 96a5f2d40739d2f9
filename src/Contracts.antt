-- ===== src/Contracts.antt =====
-- The Solidity code of contracts/.
pub mod PreciseUnitMath
pub mod AddressArrayUtils
pub mod Storage
pub mod Controller
pub mod SetToken
pub mod ModuleBase
pub mod Invoke
pub mod Position
pub mod BasicIssuance
pub mod SetTokenCreator
pub mod NavIssuance
pub mod StreamingFee
