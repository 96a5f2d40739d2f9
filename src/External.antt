-- ===== src/External.antt =====
-- The third-party code that the source calls, as parameters: an interface for each library, with
-- the documented behaviour that the source relies on as its laws.
pub mod Decimal
pub mod Ethers
pub mod OpenZeppelin
pub mod TokenContracts
