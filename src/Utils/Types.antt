-- ===== src/Utils/Types.antt =====
-- utils/types.ts: the records that the utilities and the tests pass to the contracts.
use set_protocol_v2_contract.Common.{ℕ, String, Bool, List}
use set_protocol_v2_contract.Common.Integer.{ℤ}

abbrev pub Address : Type 0
Address = String

abbrev pub Bytes : Type 0
Bytes = String

-- `data` of the source is `data_bytes`.
pub record Position : Type 0 where
  pub component : Address
  pub module_address : Address
  pub unit : ℤ
  pub position_state : ℕ
  pub data_bytes : Bytes

pub record StreamingFeeState : Type 0 where
  pub fee_recipient : Address
  pub streaming_fee_percentage : ℤ
  pub max_streaming_fee_percentage : ℤ
  pub last_streaming_fee_timestamp : ℤ

pub record AirdropSettings : Type 0 where
  pub airdrops : List Address
  pub fee_recipient : Address
  pub airdrop_fee : ℤ
  pub anyone_absorb : Bool

pub record NavIssuanceSettings : Type 0 where
  pub manager_issuance_hook : Address
  pub manager_redemption_hook : Address
  pub reserve_assets : List Address
  pub fee_recipient : Address
  pub manager_fees : ℤ × ℤ
  pub max_manager_fee : ℤ
  pub premium_percentage : ℤ
  pub max_premium_percentage : ℤ
  pub min_set_token_supply : ℤ

pub record CustomOracleNavIssuanceSettings : Type 0 where
  pub base : NavIssuanceSettings
  pub open base use *
  pub set_valuer : Address
