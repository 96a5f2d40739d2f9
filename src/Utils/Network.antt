-- ===== src/Utils/Network.antt =====
-- What the deployment code of utils/ sees of a chain: it sends requests through ethers and typechain's
-- generated factories, and gets answers. The requests so far are the state, the latest first; the
-- answers are a parameter, a function of the requests before and of the request.
pub mod Results
use set_protocol_v2_contract.Common.{
  ℕ, String, Bool, List, [], ◌∷◌, Result, ok, err, fault, ◌>>=◌ as ◌then_result◌,
}
use set_protocol_v2_contract.Common.Integer.{ℤ}
use set_protocol_v2_contract.Utils.Types.{Address}

-- An argument of a constructor or of a method.
pub data Argument : Type 0 where
  address : Address → Argument
  addresses : List Address → Argument
  number : ℤ → Argument
  numbers : List ℤ → Argument
  text : String → Argument
  flag : Bool → Argument

pub data Request : Type 0 where
  -- `new C__factory(signer).deploy(...)`
  deploys : String → List Argument → Request
  -- The same with the address of a library that is linked, behind the name of its placeholder.
  deploys_linked : String → String → Address → List Argument → Request
  -- A transaction on the contract at the address, with the value sent along.
  sends : Address → String → List Argument → ℤ → Request
  -- `provider.send`: a method of the node with its parameters.
  calls_node : String → List Argument → Request
  -- A call that returns an address, a number or a list of addresses.
  reads_address reads_number reads_addresses : Address → String → List Argument → Request

pub record Network : Type 0 where
  pub deployed : List Request → Request → Result Address
  pub sent : List Request → Request → Result (Unit {0})
  pub node_answered : List Request → Request → Result String
  pub address_read : List Request → Request → Result Address
  pub number_read : List Request → Request → Result ℤ
  pub addresses_read : List Request → Request → Result (List Address)

-- An asynchronous function: it extends the requests, or throws.
abbrev pub Async : Type 0 → Type 0
Async A = List Request → Result (A × List Request)

infixl 5 ◌>>=◌ ◌>>◌
unfoldable pub ◌>>=◌ : {A B : Type 0} → Async A → (A → Async B) → Async B
◌>>=◌ m f log = elim (m log) [ ok (a, log') ↦ f a log' | err e ↦ err e ]

abbrev pub ◌>>◌ : {A B : Type 0} → Async A → Async B → Async B
m >> k = m >>= λ _. k

unfoldable pub pure : {A : Type 0} → A → Async A
pure a log = ok (a, log)

unfoldable pub lift : {A : Type 0} → Result A → Async A
lift r log = elim r [ ok a ↦ ok (a, log) | err e ↦ err e ]

unfoldable pub answer : {A : Type 0} → (List Request → Request → Result A) → Request → Async A
answer reply request log = elim (reply log request) [ ok a ↦ ok (a, request ∷ log) | err e ↦ err e ]

module _ ⦃net : Network⦄ where
  abbrev pub deploy : String → List Argument → Async Address
  deploy contract_name arguments = answer net.deployed (deploys contract_name arguments)

  abbrev pub deploy_linked : String → String → Address → List Argument → Async Address
  deploy_linked contract_name library_name library_address arguments =
      answer net.deployed (deploys_linked contract_name library_name library_address arguments)

  abbrev pub send_value : Address → String → List Argument → ℤ → Async (Unit {0})
  send_value contract method arguments value =
      answer net.sent (sends contract method arguments value)

  abbrev pub send : Address → String → List Argument → Async (Unit {0})
  send contract method arguments = send_value contract method arguments (ℤ.pos 0)

  abbrev pub call_node : String → List Argument → Async String
  call_node method parameters = answer net.node_answered (calls_node method parameters)

  abbrev pub read_address : Address → String → List Argument → Async Address
  read_address contract method arguments =
      answer net.address_read (reads_address contract method arguments)

  abbrev pub read_number : Address → String → List Argument → Async ℤ
  read_number contract method arguments =
      answer net.number_read (reads_number contract method arguments)

  abbrev pub read_addresses : Address → String → List Argument → Async (List Address)
  read_addresses contract method arguments =
      answer net.addresses_read (reads_addresses contract method arguments)

-- A transaction that is not awaited: what becomes of it does not reach the caller.
abbrev pub send_unawaited : Address → String → List Argument → Async (Unit {0})
send_unawaited contract method arguments log =
    ok (tt, sends contract method arguments (ℤ.pos 0) ∷ log)
