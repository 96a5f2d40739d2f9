-- ===== src/Examples.antt =====
-- The development at concrete inputs: the libraries as concrete functions, and a run of the theorems.
pub mod Instances
pub mod Components
mod Arithmetic
mod Arrays
mod Registry
mod Tokens
mod Predictions
mod Roots
mod Fees
mod Creation
mod Issuance
mod Positions
mod NavIssuance
mod System
