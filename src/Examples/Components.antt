-- ===== src/Examples/Components.antt =====
-- ERC20 contracts as one concrete function: the balances of all tokens.
use Prim.Native.Char.{code}
use Prim.Native.String.{String}
use set_protocol_v2_contract.Common.{
  ℕ, zero, suc, ◌+◌, ◌-◌, ◌≤◌, ◌≡◌, ◌≢◌, refl, sym, ap, ◌∙◌, Result, ok, err, fault, arith,
  if◌then◌else◌, leb, ◌==◌, ne→==,
}
use set_protocol_v2_contract.External.TokenContracts.{Erc20Contracts}
use set_protocol_v2_contract.Contracts.Storage.{update}

abbrev pub Balances : Type 0
Balances = ℕ → ℕ → ℕ

abbrev pub move : Balances → ℕ → ℕ → ℕ → ℕ → Balances
move b token payer payee quantity =
    let paid = update (b token) payer (b token payer - quantity) in
    update b token (update paid payee (paid payee + quantity))

abbrev pub transfer : Balances → ℕ → ℕ → ℕ → ℕ → Result Balances
transfer b token payer payee quantity =
    if leb quantity (b token payer) then ok (move b token payer payee quantity) else err fault

-- The data of a call, with both numbers in unary.
abbrev payee_data : ℕ → String
payee_data zero = ""
payee_data (suc n) = String.◌∷◌ "b" (payee_data n)

abbrev call_data : ℕ → ℕ → String
call_data payee zero = payee_data payee
call_data payee (suc n) = String.◌∷◌ "a" (call_data payee n)

abbrev decoded : String → ℕ × ℕ
decoded String.[] = (0, 0)
decoded (String.◌∷◌ c s) =
    let (payee, quantity) = decoded s in
    if code c == 97 then (payee, suc quantity) else (suc payee, quantity)

decoded-payee_data : (n : ℕ) → decoded (payee_data n) ≡ (n, 0)
decoded-payee_data zero = refl
decoded-payee_data (suc n) = ap (λ d. (suc d.0, d.1)) (decoded-payee_data n)

pub decoded-call_data : (payee n : ℕ) → decoded (call_data payee n) ≡ (payee, n)
decoded-call_data payee zero = decoded-payee_data payee
decoded-call_data payee (suc n) = ap (λ d. (d.0, suc d.1)) (decoded-call_data payee n)

abbrev answer_call : Balances → ℕ → ℕ → ℕ → String → Result (Balances × String)
answer_call b sender target value call =
    let (payee, quantity) = decoded call in
    if leb quantity (b target sender)
    then ok (move b target sender payee quantity, "")
    else err fault

pub transfer-others :
    (b : Balances) (token payer payee quantity : ℕ) (b' : Balances) (c holder : ℕ)
    → transfer b token payer payee quantity ≡ ok b'
    → c ≢ token
    → b' c holder ≡ b c holder
transfer-others b token payer payee quantity b' c holder h other =
    let same : move b token payer payee quantity ≡ b' = ground arith in
    ap (λ m. m c holder) (sym same) ∙ ground (arith, ne→== c token other)

pub call-others :
    (b : Balances) (sender target payee quantity : ℕ) (b' : Balances) (answer : String)
    (c holder : ℕ)
    → answer_call b sender target 0 (call_data payee quantity) ≡ ok (b', answer)
    → c ≢ target
    → b' c holder ≡ b c holder
call-others b sender target payee quantity b' answer c holder h other =
    let (paid, sent) = decoded (call_data payee quantity) in
    let same : move b target sender paid sent ≡ b' = ground arith in
    ap (λ m. m c holder) (sym same) ∙ ground (arith, ne→== c target other)

abbrev pub component_contracts : Erc20Contracts Balances
component_contracts = record {
  balance_of = λ b. b;
  safe_transfer_from =
      λ b token spender payer payee quantity. transfer b token payer payee quantity;
  call_with_value = answer_call;
  encode_transfer = call_data;
  encode_approve = call_data;
  encode_withdraw = λ quantity. "";
  encode_deposit = "";
  transfer_from-others = λ b token spender. transfer-others b token;
  transfer-others = call-others;
}

pub answer_call-pays :
    (b : Balances) (payer token payee quantity : ℕ)
    → quantity ≤ b token payer
    → answer_call b payer token 0 (call_data payee quantity)
      ≡ ok (move b token payer payee quantity, "")
answer_call-pays b payer token payee quantity enough =
    rw (decoded-call_data payee quantity) (ground arith)
