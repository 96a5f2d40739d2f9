-- ===== src/Lib.antt =====
-- Set Protocol v2: tokens that hold positions in other tokens, the modules that change them, the
-- registry of the system, and the TypeScript utilities that deploy it and predict its numbers.
--
-- The program's parts and how they interact. A Controller (contracts/protocol/Controller.sol) lists
-- the sets, the factories, the modules and the resources of the system. A SetToken
-- (contracts/protocol/SetToken.sol) is an ERC20 token that keeps, for each component, a virtual unit
-- by default and one for each external module; real units are virtual units times one multiplier.
-- Its manager adds and removes modules; an initialized module that the controller enables may change
-- positions, mint and burn, and may lock the others out. The StreamingFeeModule
-- (contracts/protocol/modules/StreamingFeeModule.sol) mints shares for the time that has passed and
-- scales the multiplier down. The SetTokenCreator makes tokens and registers them, and the
-- BasicIssuanceModule mints and burns shares against deposits and withdrawals of all components, the
-- NAVIssuanceModule against one reserve asset at the value of the token. The libraries Position and
-- Invoke change positions and move components for the modules. The utilities (utils/common) compute
-- in BigNumbers what the contracts should give; utils/deploys and utils/fixtures set the system up.
--
-- Files:
--   Common              lists, results with errors, signed integers and rounding division.
--   External            third-party code as records of operations with their documented laws: Ethers
--                       is BigNumber and parseEther; OpenZeppelin is SafeMath, SignedSafeMath,
--                       SafeCast and the ledger of ERC20; TokenContracts is the component tokens,
--                       whose transfers move no balance of another token.
--   Utils/MathUtils     utils/common/mathUtils.ts; UnitsUtils, FeeModuleUtils,
--                       NavIssuanceModuleUtils, UniswapUtils, ProtocolUtils and BlockchainUtils
--                       are the files of those names beside it.
--   Utils/Network       the requests that deployment code sends and the answers it gets.
--   Utils/Deploys       utils/deploys; each function is the list of its requests.
--   Utils/Fixtures      utils/fixtures/systemFixture.ts, and aaveFixture.ts, balancerFixture.ts,
--                       curveFixture.ts, compoundFixture.ts and uniswapFixture.ts beside it.
--   Contracts/PreciseUnitMath and Contracts/AddressArrayUtils
--                       contracts/lib/PreciseUnitMath.sol and contracts/lib/AddressArrayUtils.sol.
--   Contracts/Controller
--                       contracts/protocol/Controller.sol: the record Controller has its storage,
--                       and each function returns the new state or an error; Calls has one
--                       constructor for each transaction.
--   Contracts/SetToken  contracts/protocol/SetToken.sol: State is the storage and the modifiers,
--                       Units the conversions, Operations the functions, Calls one constructor for
--                       each function that is not a read.
--   Contracts/StreamingFee
--                       contracts/protocol/modules/StreamingFeeModule.sol: the record World has the
--                       controller, the tokens by address and the module's mapping, so that a call
--                       of the module changes all of them.
--   Contracts/ModuleBase, Contracts/Invoke and Contracts/Position
--                       contracts/protocol/lib/ModuleBase.sol with contracts/lib/ExplicitERC20.sol,
--                       and Invoke.sol and Position.sol beside it.
--   Contracts/BasicIssuance
--                       contracts/protocol/modules/BasicIssuanceModule.sol: the record World has the
--                       controller, the tokens, the hooks, and the state of the component contracts.
--   Contracts/NavIssuance
--                       contracts/protocol/modules/NAVIssuanceModule.sol: the settings of the
--                       managers; Quantities has what an issue or a redemption computes, and Actions
--                       has the two. The SetValuer, the decimals of an asset and the hooks are
--                       parameters.
--   Contracts/SetTokenCreator
--                       contracts/protocol/SetTokenCreator.sol.
--   Agreement           the utilities against the contracts.
--   Examples            concrete functions for the third-party code, and runs.
--
-- How the code is written here. An address is a number, 0 the zero address; a mapping is a function
-- and a storage array a list. A function that changes state takes the state and the sender and gives
-- the new state, or an error: `reason` with the message of a require, or `fault` for an error of a
-- library or of the machine. A revert leaves the state, since the caller keeps the old one. The
-- checked operations on uint256 and int256 fail where the exact result does not fit; the two places
-- that are not checked wrap around (`decrement` and `negate`). Functions that the source overloads
-- by type have `_int` behind the name of the int256 version. Loops are recursion on the list or on
-- the number of rounds that are left. One has fuel, the loop of `sqrt`: three rounds more than the
-- number are enough.
--
-- Parameters: `onlyOwner` of Ownable is a function of the sender; the code behind `invoke` is a
-- function, and so is the code of a module that is removed, with the token that it leaves, for it may
-- call the token back; the time is an argument; a chain's answers to the deployment code are a
-- function of the requests before.
--
-- Not modelled: events, gas, the reentrancy guards, allowances and transfers of the shares
-- themselves, getPositions, issues and redemptions of the NAV module in Ether, the other modules with
-- their adapters, hooks and viewers, the price oracle, the valuer, the integration registry, mocks,
-- and the vendored contracts.
pub mod Common
pub mod External
pub mod Utils
pub mod Contracts
pub mod Agreement
pub mod Examples
