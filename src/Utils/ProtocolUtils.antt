-- ===== src/Utils/ProtocolUtils.antt =====
-- utils/common/protocolUtils.ts: the positions that the tests expect, and the address of a token that
-- a factory has made.
use text.Mathlib.Text.{◌==◌ as ◌is_text◌}
use set_protocol_v2_contract.Common.{
  String, List, [], ◌∷◌, Option, some, none, Result, ok, err, fault, reason, ◌>>=◌ as ◌then_result◌,
  if◌then◌else◌,
}
use set_protocol_v2_contract.Common.Integer.{ℤ}
use set_protocol_v2_contract.Utils.Constants.{address_zero, empty_bytes}
use set_protocol_v2_contract.Utils.Types.{Address, Bytes, Position}
use set_protocol_v2_contract.Utils.Network.{Request, Async, lift}

unfoldable pub get_default_position : Address → ℤ → Position
get_default_position component unit = record {
  component = component;
  module_address = address_zero;
  unit = unit;
  position_state = 0;
  data_bytes = empty_bytes;
}

unfoldable pub get_external_position : Address → Address → ℤ → Bytes → Position
get_external_position component module_address unit data_bytes = record {
  component = component;
  module_address = module_address;
  unit = unit;
  position_state = 1;
  data_bytes = data_bytes;
}

-- What ethers gives: the hash of a text, the logs of the latest block under a topic, and the argument
-- `_setToken` of a log that it parses.
pub record EventReader : Type 1 where
  pub Log : Type 0
  pub id : String → String
  pub get_logs : List Request → String → Result (List Log)
  pub parse_set_token : Log → Result Address

-- A read out of the array is undefined, and parsing it throws.
unfoldable pub last_log : {L : Type 0} → List L → Result L
last_log [] = err fault
last_log (log ∷ []) = ok log
last_log (log ∷ next ∷ rest) = last_log (next ∷ rest)

unfoldable pub created_address : EventReader → List Request → Result Address
created_address reader requests =
    let topic = reader.id "SetTokenCreated(address,address,string,string)" in
    reader.get_logs requests topic then_result λ logs.
    last_log logs then_result λ log. reader.parse_set_token log

-- A missing hash and the empty text are both falsy.
unfoldable pub get_created_set_token_address : EventReader → Option String → Async Address
get_created_set_token_address reader none requests =
    lift (err (reason "Invalid transaction hash")) requests
get_created_set_token_address reader (some hash) requests =
    if hash is_text ""
    then lift (err (reason "Invalid transaction hash")) requests
    else lift (created_address reader requests) requests
