-- ===== src/Contracts/NavIssuance/Solvency.antt =====
-- contracts/protocol/modules/NAVIssuanceModule.sol: what an issue leaves per share is covered.
use native.Mathlib.Nat.{div-mul-le_self}
use set_protocol_v2_contract.Common.{
  ℕ, ◌+◌, ◌*◌, ◌/◌, ◌^◌, ◌≤◌, ◌≡◌, refl, sym, ap, ◌∙◌, subst, subst₂, ok, arith, bind-inversion,
  ok_injective,
}
use set_protocol_v2_contract.Common.Integer.{ℤ, pos, pos_mul, pos_quot, ◌*ℤ◌, quot}
use set_protocol_v2_contract.External.OpenZeppelin.{SafeMath, SignedSafeMath, SafeCast, fits_int}
use set_protocol_v2_contract.Contracts.PreciseUnitMath.{precise_mul}
use set_protocol_v2_contract.Contracts.PreciseUnitMath.Unsigned.{
  precise_mul-inversion, precise_div-inversion,
}
use set_protocol_v2_contract.Contracts.SetToken.{SetToken, get_default_position_real_unit}
use set_protocol_v2_contract.Contracts.NavIssuance.{World, NavIssuanceSettings}
use set_protocol_v2_contract.Contracts.Controller.{Controller}
use set_protocol_v2_contract.Contracts.NavIssuance.Quantities.{
  ActionInfo, Fees, FeeIndices, fees_of, get_protocol_and_manager_fee_percentages, scale_multiplier,
  get_issue_position_unit, get_fees, get_set_token_mint_quantity, issue_indices,
}
use set_protocol_v2_contract.Contracts.NavIssuance.Actions.{Surroundings, create_issuance_info}

fits_int-inversion : (x y : ℤ) → fits_int x ≡ ok y → y ≡ x
fits_int-inversion x y h = ground arith

module _ ⦃ssm : SignedSafeMath⦄ where
  mul-exact : (a b : ℕ) (x : ℤ) → ssm.mul (pos a) (pos b) ≡ ok x → x ≡ pos (a * b)
  mul-exact a b x h =
      fits_int-inversion (pos a *ℤ pos b) x (sym (ssm.mul_lem (pos a) (pos b)) ∙ h) ∙ pos_mul a b

  div-exact : (a b : ℕ) (x : ℤ) → ssm.div (pos a) (pos b) ≡ ok x → x ≡ pos (a / b)
  div-exact a b x h = ground (
    arith,
    sym (ssm.div_lem (pos a) (pos b)) ∙ h,
    fits_int-inversion (quot (pos a) (pos b)) x,
    pos_quot a b,
  )

module _ ⦃sm : SafeMath⦄ ⦃ssm : SignedSafeMath⦄ ⦃sc : SafeCast⦄ where
  -- Supply times multiplier does not grow.
  scale_multiplier-bound :
      (t : SetToken) (m previous current : ℕ) (r : ℤ)
      → t.position_multiplier ≡ pos m
      → scale_multiplier t previous current ≡ ok r
      → (m' : ℕ) × (r ≡ pos m') × (m' * current ≤ m * previous)
  unfolding scale_multiplier
  scale_multiplier-bound t m previous current r mult h =
      let (p, e1, h1) = bind-inversion (sc.to_int previous) _ h in
      let (product, e2, h2) = bind-inversion (ssm.mul t.position_multiplier p) _ h1 in
      let (c, e3, e4) = bind-inversion (sc.to_int current) _ h2 in
      let p_is : p ≡ pos previous = ground (arith, sc.to_int_lem previous) in
      let c_is : c ≡ pos current = ground (arith, sc.to_int_lem current) in
      let exact : product ≡ pos (m * previous) =
        mul-exact m previous product (subst₂ (λ a b. ssm.mul a b ≡ ok product) mult p_is e2) in
      let divided : r ≡ pos (m * previous / current) =
        div-exact (m * previous) current r (subst₂ (λ a b. ssm.div a b ≡ ok r) exact c_is e4) in
      (m * previous / current, divided, div-mul-le_self (m * previous) current)

  -- The fees and the rest are the whole.
  get_fees-split :
      (controller : Controller) (this : ℕ) (settings : NavIssuanceSettings) (quantity : ℕ)
      (i : FeeIndices) (f : Fees)
      → get_fees controller this settings quantity i ≡ ok f
      → f.net_reserve_flow + f.protocol_fees + f.manager_fee ≡ quantity
  unfolding get_fees fees_of
  get_fees-split controller this settings quantity i f h =
      let (p, e, h0) =
        bind-inversion (get_protocol_and_manager_fee_percentages controller this settings i) _ h in
      let (a, e1, h1) = bind-inversion (precise_mul p.protocol quantity) _ h0 in
      let (b, e2, h2) = bind-inversion (precise_mul p.manager quantity) _ h1 in
      let (left, e3, h3) = bind-inversion (sm.sub quantity a) _ h2 in
      let (net, e4, h4) = bind-inversion (sm.sub left b) _ h3 in
      let first : left + a ≡ quantity = ground (arith, sm.sub_lem quantity a) in
      let second : net + b ≡ left = ground (arith, sm.sub_lem left b) in
      subst (λ g. g.net_reserve_flow + g.protocol_fees + g.manager_fee ≡ quantity) (ok_injective h4)
        (omega (arith, first, second))

  get_issue_position_unit-bound :
      (t : SetToken) (reserve_asset previous net_flow current unit : ℕ)
      → get_issue_position_unit t reserve_asset previous net_flow current ≡ ok unit
      → (held : ℕ) × (get_default_position_real_unit t reserve_asset ≡ ok (pos held))
        × (unit * current ≤ held * previous + net_flow * 10 ^ 18)
  unfolding get_issue_position_unit
  get_issue_position_unit-bound t reserve_asset previous net_flow current unit h =
      let (real, e1, h1) = bind-inversion (get_default_position_real_unit t reserve_asset) _ h in
      let (existing, e2, h2) = bind-inversion (sc.to_uint real) _ h1 in
      let (held, e3, h3) = bind-inversion (precise_mul existing previous) _ h2 in
      let (total, e4, e5) = bind-inversion (sm.add held net_flow) _ h3 in
      let whole : real ≡ pos existing = ground (arith, sc.to_uint_lem real) in
      let sum : total ≡ held + net_flow = ground (arith, sm.add_lem held net_flow) in
      let (_, held_is) = precise_mul-inversion existing previous held e3 in
      let (_, _, unit_is) = precise_div-inversion total current unit e5 in
      let below : unit * current ≤ total * 10 ^ 18 =
        subst (λ x. x * current ≤ total * 10 ^ 18) (sym unit_is)
          (div-mul-le_self (total * 10 ^ 18) current) in
      (existing, e1 ∙ ap (λ x. ok x) whole, omega (arith, below, sum, held_is))

module _ {S : Type 0} (around : Surroundings S) (this : ℕ) ⦃sm : SafeMath⦄ ⦃ssm : SignedSafeMath⦄
    ⦃sc : SafeCast⦄ where
  -- What `issue` computes before it moves anything.
  pub record IsCovered (w : World S) (set_token reserve_asset m : ℕ) (info : ActionInfo)
      : Type 0 where
    pub supply :
        (info.previous_set_token_supply ≡ (w.tokens set_token).ledger.total_supply)
        × (info.new_set_token_supply ≡ info.set_token_quantity + info.previous_set_token_supply)
    pub flows :
        info.net_flow_quantity + info.protocol_fees + info.manager_fee
        ≡ info.pre_fee_reserve_quantity
    pub multiplier :
        (m' : ℕ) × (info.new_position_multiplier ≡ pos m')
        × (m' * info.new_set_token_supply ≤ m * info.previous_set_token_supply)
    pub reserve :
        (held : ℕ) × (get_default_position_real_unit (w.tokens set_token) reserve_asset
          ≡ ok (pos held))
        × (info.new_reserve_position_unit * info.new_set_token_supply
            ≤ held * info.previous_set_token_supply + info.net_flow_quantity * 10 ^ 18)

  -- Where the amounts of an issue are computed, for a multiplier m that is not negative, the shares
  -- are covered: the new supply times the new multiplier is at most the old supply times m, so that
  -- no other position is diluted; the new unit of the reserve asset times the new supply is at most
  -- what was tracked and what flows in; and the flow and the two fees are what the issuer pays.
  pub create_issuance_info-IsCovered :
      (w : World S) (set_token reserve_asset quantity m : ℕ) (info : ActionInfo)
      → (w.tokens set_token).position_multiplier ≡ pos m
      → create_issuance_info around this w set_token reserve_asset quantity ≡ ok info
      → IsCovered w set_token reserve_asset m info
  unfolding create_issuance_info
  create_issuance_info-IsCovered w set_token reserve_asset quantity m info mult h =
      let t = w.tokens set_token in
      let s = w.nav_issuance_settings set_token in
      let previous = t.ledger.total_supply in
      let (fees, e1, h1) =
        bind-inversion (get_fees w.controller this s quantity issue_indices) _ h in
      let (minted, e2, h2) =
        bind-inversion
          (get_set_token_mint_quantity (around.valuation w set_token reserve_asset)
            (around.decimals w.outside reserve_asset) s.premium_percentage fees.net_reserve_flow
            previous)
          _ h1 in
      let (current, e3, h3) = bind-inversion (sm.add minted previous) _ h2 in
      let (multiplier, e4, h4) = bind-inversion (scale_multiplier t previous current) _ h3 in
      let (unit, e5, h5) =
        bind-inversion
          (get_issue_position_unit t reserve_asset previous fees.net_reserve_flow current) _ h4 in
      subst (IsCovered w set_token reserve_asset m) (ok_injective h5) (record {
        supply = (refl, ground (arith, sm.add_lem minted previous));
        flows = get_fees-split w.controller this s quantity issue_indices fees e1;
        multiplier = scale_multiplier-bound t m previous current multiplier mult e4;
        reserve =
            get_issue_position_unit-bound t reserve_asset previous fees.net_reserve_flow current
              unit e5;
      })
