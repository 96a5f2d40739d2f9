-- ===== src/Agreement.antt =====
-- The utilities of utils/common/, by which the tests compute what they expect, against the contracts
-- that they test.
pub mod PreciseMath
pub mod StreamingFee
pub mod NavIssuance
