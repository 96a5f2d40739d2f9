-- ===== src/Utils/Constants.antt =====
-- utils/constants.ts: the numbers that the other utilities use.
use set_protocol_v2_contract.Utils.Types.{Address, Bytes}
use set_protocol_v2_contract.Common.{◌*◌, ◌^◌, ◌-◌}
use set_protocol_v2_contract.Common.Integer.{ℤ, pos, negsuc}

-- `constants.WeiPerEther` of ethers
abbrev pub precise_unit : ℤ
precise_unit = pos (10 ^ 18)

abbrev pub zero : ℤ
zero = pos 0

abbrev pub one : ℤ
one = pos 1

abbrev pub two : ℤ
two = pos 2

abbrev pub three : ℤ
three = pos 3

abbrev pub max_uint_256 : ℤ
max_uint_256 = pos (2 ^ 256 - 1)

abbrev pub max_int_256 : ℤ
max_int_256 = pos (2 ^ 255 - 1)

abbrev pub min_int_256 : ℤ
min_int_256 = negsuc (2 ^ 255 - 1)

abbrev pub one_day_in_seconds : ℤ
one_day_in_seconds = pos (60 * 60 * 24)

abbrev pub one_hour_in_seconds : ℤ
one_hour_in_seconds = pos (60 * 60)

abbrev pub one_year_in_seconds : ℤ
one_year_in_seconds = pos 31557600

-- `AddressZero` of ethers
abbrev pub address_zero : Address
address_zero = "0x0000000000000000000000000000000000000000"

abbrev pub empty_bytes : Bytes
empty_bytes = "0x"

abbrev pub zero_bytes : Bytes
zero_bytes = "0x0000000000000000000000000000000000000000000000000000000000000000"

abbrev pub eth_address : Address
eth_address = "0xEeeeeEeeeEeEeeEeEeEeeEEEeeeeEeeeeeeeEEeE"
