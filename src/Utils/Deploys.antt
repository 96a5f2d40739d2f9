-- ===== src/Utils/Deploys.antt =====
-- utils/deploys/: one function for each contract that a class of `DeployHelper` deploys. A contract
-- that is attached at an address is that address.
pub mod Core
pub mod Modules
pub mod Mocks
pub mod Adapters
pub mod Compound
pub mod Weth
pub mod Aave
pub mod Curve
pub mod Uniswap
