-- ===== src/Contracts/SetToken.antt =====
-- contracts/protocol/SetToken.sol: the token, its components with their positions, and its modules.
mod State
mod Units
mod Operations
pub mod Calls
pub mod Inversion
pub mod Access
pub mod Validity
pub mod Preservation
pub mod History
pub mod Abandoned
pub mod Rounding
pub mod Multiplier
unfoldable pub use State.*
unfoldable pub use Units.*
unfoldable pub use Operations.*
