-- ===== src/Contracts/BasicIssuance/Loops.antt =====
-- contracts/protocol/modules/BasicIssuanceModule.sol: what the loops of `issue` and `redeem` do to
-- the balance of each component.
use set_protocol_v2_contract.Common.{
  ℕ, Bool, ◌+◌, ◌<◌, ◌≡◌, false, List, [], ◌∷◌, ok, arith, ◌==◌, Bool-cases, inl, inr, Result-cases,
  ap, ◌∙◌,
}
use set_protocol_v2_contract.Common.Integer.{pos, negsuc}
use set_protocol_v2_contract.Common.Lists.{count}
use set_protocol_v2_contract.External.OpenZeppelin.{SafeMath, SignedSafeMath, SafeCast}
use set_protocol_v2_contract.External.TokenContracts.{Erc20Contracts}
use set_protocol_v2_contract.Contracts.PreciseUnitMath.{precise_mul, precise_mul_ceil}
use set_protocol_v2_contract.Contracts.SetToken.{SetToken, get_default_position_real_unit}
use set_protocol_v2_contract.Contracts.SetToken.Validity.{IsDistinctArray}
use set_protocol_v2_contract.Contracts.Position.{has_external_position}
use set_protocol_v2_contract.Contracts.ModuleBase.{transfer_from}
use set_protocol_v2_contract.Contracts.Invoke.{strict_invoke_transfer}
use set_protocol_v2_contract.Contracts.BasicIssuance.{
  required_quantity, required_quantities, take_components, pay_component, pay_components,
}
use set_protocol_v2_contract.Contracts.BasicIssuance.Transfers.{
  transfer_from-raises, transfer_from-keeps, strict_invoke_transfer-lowers,
  strict_invoke_transfer-keeps,
}

-- A component whose unit reads as `unit` and that is held by no external position.
abbrev pub HasDefaultUnit : ⦃ssm : SignedSafeMath⦄ → SetToken → ℕ → ℕ → Type 0
HasDefaultUnit t component unit =
    (get_default_position_real_unit t component ≡ ok (pos unit))
    × (has_external_position t component ≡ false)

module _ ⦃sm : SafeMath⦄ ⦃ssm : SignedSafeMath⦄ ⦃sc : SafeCast⦄ where
  pub required_quantity-inversion :
      (t : SetToken) (quantity component q : ℕ)
      → required_quantity t quantity component ≡ ok q
      → (unit : ℕ) × HasDefaultUnit t component unit × (precise_mul_ceil unit quantity ≡ ok q)
  unfolding required_quantity
  required_quantity-inversion t quantity component q h =
      elim (Result-cases (get_default_position_real_unit t component)) [
        | inr (x, e) ↦ absurd (ground arith)
        | inl (pos u, e) ↦ (u, (e, ground arith), ground (arith, sc.to_uint_lem (pos u)))
        | inl (negsuc u, e) ↦ absurd (ground (arith, sc.to_uint_lem (negsuc u)))
      ]

module _ {S : Type 0} ⦃sm : SafeMath⦄ ⦃tc : Erc20Contracts S⦄ where
  take_components-keeps :
      (s : S) (spender payer set_token : ℕ) (cs qs : List ℕ) (s' : S) (c holder : ℕ)
      → take_components s spender payer set_token cs qs ≡ ok s'
      → count c cs ≡ 0
      → tc.balance_of s' c holder ≡ tc.balance_of s c holder
  unfolding take_components
  take_components-keeps s spender payer set_token [] qs s' c holder h none = ground arith
  take_components-keeps s spender payer set_token (x ∷ cs) [] s' c holder h none =
      absurd (ground arith)
  take_components-keeps s spender payer set_token (x ∷ cs) (q ∷ qs) s' c holder h none =
      elim (Result-cases (transfer_from s x spender payer set_token q)) [
        | inr (e, bad) ↦ absurd (ground arith)
        | inl (s1, e) ↦
            take_components-keeps s1 spender payer set_token cs qs s' c holder (ground arith)
              (ground arith)
            ∙ transfer_from-keeps s x spender payer set_token q s1 c holder e (ground arith)
      ]

  module _ ⦃ssm : SignedSafeMath⦄ ⦃sc : SafeCast⦄ where
    -- Every component that is listed once is taken in at the ceiling of its unit times the quantity.
    pub take_components-Takes :
        (t : SetToken) (quantity : ℕ) (s : S) (spender payer set_token : ℕ) (cs qs : List ℕ)
        (s' : S) (c : ℕ)
        → required_quantities t quantity cs ≡ ok qs
        → take_components s spender payer set_token cs qs ≡ ok s'
        → IsDistinctArray cs
        → 0 < count c cs
        → (unit q : ℕ) × HasDefaultUnit t c unit
          × (precise_mul_ceil unit quantity ≡ ok q)
          × (tc.balance_of s' c set_token ≡ tc.balance_of s c set_token + q)
    unfolding take_components required_quantities
    take_components-Takes t quantity s spender payer set_token [] qs s' c r h d listed =
        absurd (ground arith)
    take_components-Takes t quantity s spender payer set_token (x ∷ cs) qs s' c r h d listed =
        elim (Result-cases (required_quantity t quantity x)) [
          | inr (e, bad) ↦ absurd (ground arith)
          | inl (q, e) ↦ elim (Result-cases (required_quantities t quantity cs)) [
            | inr (e', bad) ↦ absurd (ground arith)
            | inl (others, e') ↦
                let same : qs ≡ q ∷ others = ground arith in
                elim (Result-cases (transfer_from s x spender payer set_token q)) [
                  | inr (e'', bad) ↦ absurd (ground arith)
                  | inl (s1, e'') ↦
                      let later : take_components s1 spender payer set_token cs others ≡ ok s' =
                        ground arith in
                      elim (Bool-cases (c == x)) [
                        | inl here ↦
                            let at_x : c ≡ x = ground arith in
                            let (u, unit, ceil) = required_quantity-inversion t quantity x q e in
                            (
                              u,
                              q,
                              rw at_x unit,
                              ceil,
                              take_components-keeps s1 spender payer set_token cs others s' c
                                    set_token later (ground (arith, d c))
                                  ∙ rw at_x
                                      (transfer_from-raises s x spender payer set_token q s1 e''),
                            )
                        | inr other ↦
                            let (u, n, unit, ceil, balance) =
                              take_components-Takes t quantity s1 spender payer set_token cs others
                                s' c e' later (λ a. ground (arith, d a)) (ground arith) in
                            (
                              u,
                              n,
                              unit,
                              ceil,
                              balance
                                  ∙ ap (λ b. b + n)
                                      (transfer_from-keeps s x spender payer set_token q s1 c
                                        set_token e'' (ground arith)),
                            )
                      ]
                ]
          ]
        ]

module _ {S : Type 0} (is_module : ℕ → Bool) ⦃sm : SafeMath⦄ ⦃ssm : SignedSafeMath⦄ ⦃sc : SafeCast⦄
    ⦃tc : Erc20Contracts S⦄ where
  -- One round: the component's quantity leaves the token, and no other balance moves.
  pay_component-Pays :
      (s : S) (sender set_token : ℕ) (t : SetToken) (quantity recipient component : ℕ) (s' : S)
      → pay_component is_module s sender set_token t quantity recipient component ≡ ok s'
      → (unit q : ℕ) × HasDefaultUnit t component unit
        × (precise_mul quantity unit ≡ ok q)
        × (strict_invoke_transfer is_module s sender set_token t component recipient q ≡ ok s')
  unfolding pay_component
  pay_component-Pays s sender set_token t quantity recipient component s' h =
      elim (Result-cases (get_default_position_real_unit t component)) [
        | inr (x, e) ↦ absurd (ground arith)
        | inl (negsuc u, e) ↦ absurd (ground (arith, sc.to_uint_lem (negsuc u)))
        | inl (pos u, e) ↦ elim (Result-cases (precise_mul quantity u)) [
          | inr (x, e') ↦ absurd (ground (arith, sc.to_uint_lem (pos u)))
          | inl (q, e') ↦ (u, q, (e, ground arith), e', ground (arith, sc.to_uint_lem (pos u)))
        ]
      ]

  pay_components-keeps :
      (s : S) (sender set_token : ℕ) (t : SetToken) (quantity recipient : ℕ) (cs : List ℕ) (s' : S)
      (c holder : ℕ)
      → pay_components is_module s sender set_token t quantity recipient cs ≡ ok s'
      → count c cs ≡ 0
      → tc.balance_of s' c holder ≡ tc.balance_of s c holder
  unfolding pay_components
  pay_components-keeps s sender set_token t quantity recipient [] s' c holder h none = ground arith
  pay_components-keeps s sender set_token t quantity recipient (x ∷ cs) s' c holder h none =
      elim (Result-cases (pay_component is_module s sender set_token t quantity recipient x)) [
        | inr (e, bad) ↦ absurd (ground arith)
        | inl (s1, e) ↦
            let (u, q, unit, mul, paid) =
              pay_component-Pays s sender set_token t quantity recipient x s1 e in
            pay_components-keeps s1 sender set_token t quantity recipient cs s' c holder
              (ground arith) (ground arith)
            ∙ strict_invoke_transfer-keeps is_module s sender set_token t x recipient q s1 c holder
                paid (ground arith)
      ]

  -- Every component that is listed once is paid out at its unit times the quantity, rounded down.
  pub pay_components-Pays :
      (s : S) (sender set_token : ℕ) (t : SetToken) (quantity recipient : ℕ) (cs : List ℕ) (s' : S)
      (c : ℕ)
      → pay_components is_module s sender set_token t quantity recipient cs ≡ ok s'
      → IsDistinctArray cs
      → 0 < count c cs
      → (unit q : ℕ) × HasDefaultUnit t c unit
        × (precise_mul quantity unit ≡ ok q)
        × (tc.balance_of s' c set_token + q ≡ tc.balance_of s c set_token)
  unfolding pay_components
  pay_components-Pays s sender set_token t quantity recipient [] s' c h d listed =
      absurd (ground arith)
  pay_components-Pays s sender set_token t quantity recipient (x ∷ cs) s' c h d listed =
      elim (Result-cases (pay_component is_module s sender set_token t quantity recipient x)) [
        | inr (e, bad) ↦ absurd (ground arith)
        | inl (s1, e) ↦
            let (u, q, unit, mul, paid) =
              pay_component-Pays s sender set_token t quantity recipient x s1 e in
            let later : pay_components is_module s1 sender set_token t quantity recipient cs
                ≡ ok s' =
              ground arith in
            elim (Bool-cases (c == x)) [
              | inl here ↦
                  let at_x : c ≡ x = ground arith in
                  (
                    u,
                    q,
                    rw at_x unit,
                    mul,
                    ap (λ b. b + q)
                          (pay_components-keeps s1 sender set_token t quantity recipient cs s' c
                            set_token later (ground (arith, d c)))
                        ∙ rw at_x (
                            strict_invoke_transfer-lowers is_module s sender set_token t x recipient
                              q s1 paid),
                  )
              | inr other ↦
                  let (u', n, unit', mul', balance) =
                    pay_components-Pays s1 sender set_token t quantity recipient cs s' c later
                      (λ a. ground (arith, d a)) (ground arith) in
                  (
                    u',
                    n,
                    unit',
                    mul',
                    balance
                        ∙ strict_invoke_transfer-keeps is_module s sender set_token t x recipient q
                            s1 c set_token paid (ground arith),
                  )
            ]
      ]
