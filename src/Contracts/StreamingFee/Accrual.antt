-- ===== src/Contracts/StreamingFee/Accrual.antt =====
-- contracts/protocol/modules/StreamingFeeModule.sol: what `accrueFee` mints and leaves.
use set_protocol_v2_contract.Common.{
  ℕ, ◌+◌, ◌-◌, ◌*◌, ◌/◌, ◌^◌, ◌<◌, ◌≤◌, ◌≡◌, Bool, ok, ap, ◌∙◌, subst, arith, ltb, Bool-cases,
  Result-cases, bind-inversion, inl, inr,
}
use set_protocol_v2_contract.Common.Integer.{pos, quot, ◌*ℤ◌}
use set_protocol_v2_contract.External.OpenZeppelin.{SafeMath, SignedSafeMath, SafeCast, Erc20}
use set_protocol_v2_contract.Contracts.PreciseUnitMath.{precise_mul, precise_mul_int}
use set_protocol_v2_contract.Contracts.Storage.{update}
use set_protocol_v2_contract.Contracts.Controller.{get_module_fee}
use set_protocol_v2_contract.Contracts.SetToken.{SetToken, mint, edit_position_multiplier}
use set_protocol_v2_contract.Contracts.SetToken.Inversion.{
  mint_inversion, edit_position_multiplier_inversion,
}
use set_protocol_v2_contract.Contracts.StreamingFee.{
  World, FeeState, Accrued, one_year_in_seconds, calculate_streaming_fee,
  calculate_streaming_fee_inflation, mint_manager_and_protocol_fee, edit_token_multiplier, inflate,
  accrue_fee, only_valid_and_initialized_set, put_fee_state,
}

-- The yearly fee for the seconds since the last accrual.
abbrev pub elapsed_fee : FeeState → ℕ → ℕ
elapsed_fee s now =
    (now - s.last_streaming_fee_timestamp) * s.streaming_fee_percentage / one_year_in_seconds

-- fee * totalSupply / (100% - fee)
abbrev pub inflation_at : ℕ → ℕ → ℕ
inflation_at supply f = f * supply / (10 ^ 18 - f)

abbrev pub inflation_of : World → ℕ → ℕ → ℕ
inflation_of w now set_token =
    inflation_at (w.tokens set_token).ledger.total_supply (elapsed_fee (w.fee_states set_token) now)

abbrev stamp : Accrued → ℕ → ℕ → Accrued
stamp b now set_token = record b {
  world =
      put_fee_state b.world set_token
        (record (b.world.fee_states set_token) { last_streaming_fee_timestamp = now });
}

module _ ⦃sm : SafeMath⦄ where
  calculate_streaming_fee_inversion :
      (w : World) (now set_token f : ℕ)
      → calculate_streaming_fee w now set_token ≡ ok f
      → ((w.fee_states set_token).last_streaming_fee_timestamp ≤ now)
        × (f ≡ elapsed_fee (w.fee_states set_token) now)
  unfolding calculate_streaming_fee
  calculate_streaming_fee_inversion w now set_token f h =
      let s = w.fee_states set_token in
      let t = now - s.last_streaming_fee_timestamp in
      ground (
        arith,
        sm.sub_lem now s.last_streaming_fee_timestamp,
        sm.mul_lem t s.streaming_fee_percentage,
        sm.div_lem (t * s.streaming_fee_percentage) one_year_in_seconds,
      )

  calculate_streaming_fee_inflation_inversion :
      (w : World) (set_token f q : ℕ)
      → calculate_streaming_fee_inflation w set_token f ≡ ok q
      → (f < 10 ^ 18) × (q ≡ f * (w.tokens set_token).ledger.total_supply / (10 ^ 18 - f))
  unfolding calculate_streaming_fee_inflation
  calculate_streaming_fee_inflation_inversion w set_token f q h =
      let supply = (w.tokens set_token).ledger.total_supply in
      ground
        (arith, sm.mul_lem f supply, sm.sub_lem (10 ^ 18) f, sm.div_lem (f * supply) (10 ^ 18 - f))

module _ ⦃erc20 : Erc20⦄ where
  mint_total :
      (is_module : ℕ → Bool) (t : SetToken) (sender a q : ℕ) (t' : SetToken)
      → mint is_module t sender a q ≡ ok t'
      → (t'.ledger.total_supply ≡ t.ledger.total_supply + q)
        × (t'.position_multiplier ≡ t.position_multiplier)
  mint_total is_module t sender a q t' h =
      let (l, minted, e) = mint_inversion is_module t sender a q t' h in
      (
        ap (λ s. s.ledger.total_supply) e ∙ erc20.mint_supply t.ledger a q minted,
        ap (λ s. s.position_multiplier) e,
      )

module _ (this : ℕ) ⦃sm : SafeMath⦄ ⦃ssm : SignedSafeMath⦄ ⦃sc : SafeCast⦄ ⦃erc20 : Erc20⦄ where
  mint_manager_and_protocol_fee_inversion :
      (w : World) (set_token q : ℕ) (a : Accrued)
      → mint_manager_and_protocol_fee this w set_token q ≡ ok a
      → (a.manager_fee + a.protocol_fee ≡ q)
        × ((a.world.tokens set_token).ledger.total_supply
            ≡ (w.tokens set_token).ledger.total_supply + q)
        × ((a.world.tokens set_token).position_multiplier
            ≡ (w.tokens set_token).position_multiplier)
  unfolding mint_manager_and_protocol_fee
  mint_manager_and_protocol_fee_inversion w set_token q a h =
      let rate = get_module_fee w.controller this 0 in
      elim (Result-cases (precise_mul q rate)) [
        | inr (y, e) ↦ absurd (ground arith)
        | inl (p, e) ↦
            let first =
              mint w.controller.is_module (w.tokens set_token) this
                (w.fee_states set_token).fee_recipient (q - p) in
            elim (Result-cases first) [
              | inr (y, e') ↦ absurd (ground (arith, sm.sub_lem q p))
              | inl (t, e') ↦
                  let (supply, same) =
                    mint_total w.controller.is_module (w.tokens set_token) this
                      (w.fee_states set_token).fee_recipient (q - p) t e' in
                  elim (Bool-cases (ltb 0 p)) [
                    | inr none ↦ ground (arith, sm.sub_lem q p)
                    | inl some ↦
                        elim (Result-cases
                          (mint w.controller.is_module t this w.controller.fee_recipient p)) [
                            | inr (y, e2) ↦ absurd (ground (arith, sm.sub_lem q p))
                            | inl (t2, e2) ↦
                                let (supply2, same2) =
                                  mint_total w.controller.is_module t this
                                    w.controller.fee_recipient p t2 e2 in
                                ground (arith, sm.sub_lem q p)
                          ]
                  ]
            ]
      ]

  edit_token_multiplier_inversion :
      (w : World) (set_token f : ℕ) (w' : World)
      → edit_token_multiplier this w set_token f ≡ ok w'
      → ((w'.tokens set_token).position_multiplier
          ≡ quot ((w.tokens set_token).position_multiplier *ℤ pos (10 ^ 18 - f)) (pos (10 ^ 18)))
        × ((w'.tokens set_token).ledger ≡ (w.tokens set_token).ledger)
  unfolding edit_token_multiplier precise_mul_int
  edit_token_multiplier_inversion w set_token f w' h =
      let t = w.tokens set_token in
      let x = quot (t.position_multiplier *ℤ pos (10 ^ 18 - f)) (pos (10 ^ 18)) in
      elim (Result-cases (edit_position_multiplier w.controller.is_module t this x)) [
        | inr (y, e) ↦ absurd (
            ground (
              arith,
              sm.sub_lem (10 ^ 18) f,
              sc.to_int_lem (10 ^ 18 - f),
              ssm.mul_lem t.position_multiplier (pos (10 ^ 18 - f)),
              ssm.div_lem (t.position_multiplier *ℤ pos (10 ^ 18 - f)) (pos (10 ^ 18)),
            ))
        | inl (t', e) ↦
            let (checked, changed) =
              edit_position_multiplier_inversion w.controller.is_module t this x t' e in
            let w_is : w' ≡ record w { tokens = update w.tokens set_token t' } = ground (
              arith,
              sm.sub_lem (10 ^ 18) f,
              sc.to_int_lem (10 ^ 18 - f),
              ssm.mul_lem t.position_multiplier (pos (10 ^ 18 - f)),
              ssm.div_lem (t.position_multiplier *ℤ pos (10 ^ 18 - f)) (pos (10 ^ 18)),
            ) in
            ground arith
      ]

  -- What an accrual of a fee that is not zero does, by the state before it.
  pub record Inflates (w : World) (now set_token : ℕ) (a : Accrued) : Type 0 where
    pub not_early : (w.fee_states set_token).last_streaming_fee_timestamp ≤ now
    pub below_all : elapsed_fee (w.fee_states set_token) now < 10 ^ 18
    pub minted : a.manager_fee + a.protocol_fee ≡ inflation_of w now set_token
    pub supply :
        (a.world.tokens set_token).ledger.total_supply
        ≡ (w.tokens set_token).ledger.total_supply + inflation_of w now set_token
    pub multiplier :
        (a.world.tokens set_token).position_multiplier
        ≡ quot
            ((w.tokens set_token).position_multiplier
              *ℤ pos (10 ^ 18 - elapsed_fee (w.fee_states set_token) now))
            (pos (10 ^ 18))

  inflate-Inflates :
      (w : World) (now set_token : ℕ) (a : Accrued)
      → inflate this w now set_token ≡ ok a
      → Inflates w now set_token a
  unfolding inflate
  inflate-Inflates w now set_token a h =
      let (f, e, h1) = bind-inversion (calculate_streaming_fee w now set_token) _ h in
      let (q, e1, h2) = bind-inversion (calculate_streaming_fee_inflation w set_token f) _ h1 in
      let (b, e2, h3) = bind-inversion (mint_manager_and_protocol_fee this w set_token q) _ h2 in
      let (w', e3, h4) = bind-inversion (edit_token_multiplier this b.world set_token f) _ h3 in
      let (early, f_is) = calculate_streaming_fee_inversion w now set_token f e in
      let (below, q_is) = calculate_streaming_fee_inflation_inversion w set_token f q e1 in
      let (sum, supply, same) = mint_manager_and_protocol_fee_inversion w set_token q b e2 in
      let (multiplier, ledger) = edit_token_multiplier_inversion b.world set_token f w' e3 in
      let a_is : a ≡ record b { world = w' } = ground arith in
      let q_of : q ≡ inflation_of w now set_token =
        q_is ∙ ap (inflation_at (w.tokens set_token).ledger.total_supply) f_is in
      record {
        not_early = early;
        below_all = subst (λ x. x < 10 ^ 18) f_is below;
        minted = ap (λ x. x.manager_fee + x.protocol_fee) a_is ∙ sum ∙ q_of;
        supply =
            ap (λ x. (x.world.tokens set_token).ledger.total_supply) a_is
            ∙ ap (λ l. l.total_supply) ledger
            ∙ supply
            ∙ ap (λ x. (w.tokens set_token).ledger.total_supply + x) q_of;
        multiplier =
            ap (λ x. (x.world.tokens set_token).position_multiplier) a_is
            ∙ multiplier
            ∙ ap (λ x. quot (x *ℤ pos (10 ^ 18 - f)) (pos (10 ^ 18))) same
            ∙ ap
                (λ x.
                  quot ((w.tokens set_token).position_multiplier *ℤ pos (10 ^ 18 - x))
                    (pos (10 ^ 18)))
                f_is;
      }

  -- When `accrueFee` succeeds on a token whose fee is not zero, with f the yearly fee times the
  -- seconds since the last accrual over the seconds of a year: f is below 100%; what the manager and
  -- the protocol receive adds up to f * supply / (100% - f), rounded down; the supply grows by just
  -- that; the multiplier is scaled by 100% - f, rounded towards zero; and the time is written down.
  pub accrue_fee-Inflates :
      (w : World) (now set_token : ℕ) (a : Accrued)
      → 0 < (w.fee_states set_token).streaming_fee_percentage
      → accrue_fee this w now set_token ≡ ok a
      → Inflates w now set_token a
        × ((a.world.fee_states set_token).last_streaming_fee_timestamp ≡ now)
  unfolding accrue_fee only_valid_and_initialized_set
  accrue_fee-Inflates w now set_token a positive h =
      elim (Result-cases (inflate this w now set_token)) [
        | inr (y, e) ↦ absurd (ground arith)
        | inl (b, e) ↦
            let i = inflate-Inflates w now set_token b e in
            let a_is : a ≡ stamp b now set_token = ground arith in
            (
              record {
                not_early = i.not_early;
                below_all = i.below_all;
                minted = ap (λ x. x.manager_fee + x.protocol_fee) a_is ∙ i.minted;
                supply = ap (λ x. (x.world.tokens set_token).ledger.total_supply) a_is ∙ i.supply;
                multiplier =
                    ap (λ x. (x.world.tokens set_token).position_multiplier) a_is ∙ i.multiplier;
              },
              ap (λ x. (x.world.fee_states set_token).last_streaming_fee_timestamp) a_is
                  ∙ ground arith,
            )
      ]
