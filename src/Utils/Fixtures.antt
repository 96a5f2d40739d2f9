-- ===== src/Utils/Fixtures.antt =====
-- utils/fixtures/: the deployments that the tests start from.
pub mod System
pub mod Aave
pub mod Balancer
pub mod Compound
pub mod Curve
pub mod Uniswap
