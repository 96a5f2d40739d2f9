-- ===== src/Agreement/NavIssuance.antt =====
-- utils/common/navIssuanceModuleUtils.ts against contracts/protocol/modules/NAVIssuanceModule.sol.
use native.Mathlib.Nat.{mul_comm}
use set_protocol_v2_contract.Common.{
  ℕ, ◌+◌, ◌-◌, ◌/◌, ◌^◌, ◌≤◌, ◌≡◌, sym, ap, ◌∙◌, subst, ok, arith, bind-inversion, ok_injective,
}
use set_protocol_v2_contract.Common.Integer.{pos, pos_sub, pos_add}
use set_protocol_v2_contract.External.Ethers.{BigNumber}
use set_protocol_v2_contract.External.OpenZeppelin.{SafeMath}
use set_protocol_v2_contract.Utils.Types.{Address}
use set_protocol_v2_contract.Utils.MathUtils
use set_protocol_v2_contract.Utils.MathUtils.Naturals.{precise_mul-pos, precise_div-pos}
use set_protocol_v2_contract.Utils.NavIssuanceModuleUtils.{
  SetTokenHandle, SetValuerHandle, get_expected_post_fee_quantity,
  get_expected_set_token_issue_quantity, get_expected_reserve_redeem_quantity,
}
use set_protocol_v2_contract.Contracts.PreciseUnitMath
use set_protocol_v2_contract.Contracts.PreciseUnitMath.Unsigned.{
  precise_mul-inversion, precise_div-inversion, precise_mul_ceil-fits,
}
use set_protocol_v2_contract.Agreement.PreciseMath.{as_big_number, precise_mul_ceil-agrees}
use set_protocol_v2_contract.Contracts.NavIssuance.Quantities.{
  Percentages, Fees, base_units, fees_of, get_set_token_mint_quantity, get_redeem_reserve_quantity,
}

module _ ⦃sm : SafeMath⦄ where
  sub-inversion : (a b n : ℕ) → sm.sub a b ≡ ok n → (b ≤ a) × (n ≡ a - b)
  sub-inversion a b n h = ground (arith, sm.sub_lem a b)

  add-inversion : (a b n : ℕ) → sm.add a b ≡ ok n → n ≡ a + b
  add-inversion a b n h = ground (arith, sm.add_lem a b)

module _ ⦃bn : BigNumber⦄ ⦃sm : SafeMath⦄ where
  -- What a result of the library is for the utilities.
  mul-predicted :
      (a b n : ℕ)
      → PreciseUnitMath.precise_mul a b ≡ ok n
      → MathUtils.precise_mul (pos a) (pos b) ≡ ok (pos n)
  mul-predicted a b n h =
      precise_mul-pos a b ∙ ap (λ x. ok (pos x)) (sym (precise_mul-inversion a b n h).1)

  swapped-predicted :
      (a b n : ℕ)
      → PreciseUnitMath.precise_mul a b ≡ ok n
      → MathUtils.precise_mul (pos b) (pos a) ≡ ok (pos n)
  swapped-predicted a b n h =
      precise_mul-pos b a
      ∙ ap (λ x. ok (pos (x / 10 ^ 18))) (mul_comm b a)
      ∙ ap (λ x. ok (pos x)) (sym (precise_mul-inversion a b n h).1)

  div-predicted :
      (a b n : ℕ)
      → PreciseUnitMath.precise_div a b ≡ ok n
      → MathUtils.precise_div (pos a) (pos b) ≡ ok (pos n)
  div-predicted a b n h =
      let (some_b, _, e) = precise_div-inversion a b n h in
      precise_div-pos a b some_b ∙ ap (λ x. ok (pos x)) (sym e)

  sub-predicted : (a b n : ℕ) → sm.sub a b ≡ ok n → bn.sub (pos a) (pos b) ≡ pos n
  sub-predicted a b n h =
      let (le, e) = sub-inversion a b n h in
      bn.sub_lem (pos a) (pos b) ∙ pos_sub a b le ∙ ap (λ x. pos x) (sym e)

  add-predicted : (a b n : ℕ) → sm.add a b ≡ ok n → bn.add (pos a) (pos b) ≡ pos n
  add-predicted a b n h =
      bn.add_lem (pos a) (pos b) ∙ pos_add a b ∙ ap (λ x. pos x) (sym (add-inversion a b n h))

  -- `_getFees` leaves what the utility expects after the fees.
  pub fees_of-predicted :
      (p : Percentages) (quantity : ℕ) (f : Fees)
      → fees_of p quantity ≡ ok f
      → get_expected_post_fee_quantity (pos quantity) (pos p.manager) (pos p.protocol)
        ≡ ok (pos f.net_reserve_flow)
  unfolding fees_of get_expected_post_fee_quantity
  fees_of-predicted p quantity f h =
      let (a, e1, h1) = bind-inversion (PreciseUnitMath.precise_mul p.protocol quantity) _ h in
      let (b, e2, h2) = bind-inversion (PreciseUnitMath.precise_mul p.manager quantity) _ h1 in
      let (left, e3, h3) = bind-inversion (sm.sub quantity a) _ h2 in
      let (net, e4, h4) = bind-inversion (sm.sub left b) _ h3 in
      let (a_fits, left_is) = sub-inversion quantity a left e3 in
      let (b_fits, net_is) = sub-inversion left b net e4 in
      let twice : bn.sub (bn.sub (pos quantity) (pos b)) (pos a) ≡ pos net =
        ap (λ x. bn.sub x (pos a))
          (bn.sub_lem (pos quantity) (pos b) ∙ pos_sub quantity b (omega (arith, b_fits, left_is)))
        ∙ bn.sub_lem (pos (quantity - b)) (pos a)
        ∙ pos_sub (quantity - b) a (omega (arith, b_fits, left_is, a_fits))
        ∙ ap (λ x. pos x) (omega (arith, net_is, left_is)) in
      rw (swapped-predicted p.manager quantity b e2, swapped-predicted p.protocol quantity a e1)
        (ap (λ x. ok x) (twice ∙ ap (λ g. pos g.net_reserve_flow) (ok_injective h4)))

  -- Where `_getFees` and `_getSetTokenMintQuantity` return, at the percentages of the contract, the
  -- utility expects of the reserve quantity exactly the quantity of shares that the contract mints.
  pub mint_quantity-predicted :
      (set_token : SetTokenHandle) (set_valuer : SetValuerHandle) (reserve_asset : Address)
      (valuation decimals supply premium quantity : ℕ) (p : Percentages) (f : Fees) (minted : ℕ)
      → set_token.total_supply ≡ ok (pos supply)
      → set_valuer.calculate_set_token_valuation set_token.address reserve_asset
        ≡ ok (pos valuation)
      → fees_of p quantity ≡ ok f
      → get_set_token_mint_quantity (ok valuation) (ok decimals) premium f.net_reserve_flow supply
        ≡ ok minted
      → get_expected_set_token_issue_quantity set_token set_valuer reserve_asset
          (pos (base_units decimals))
          (pos quantity)
          (pos p.manager)
          (pos p.protocol)
          (pos premium)
        ≡ ok (pos minted)
  unfolding get_set_token_mint_quantity get_expected_set_token_issue_quantity
  mint_quantity-predicted set_token set_valuer reserve_asset valuation decimals supply premium
        quantity p f minted has_supply valued fees h =
      let net = f.net_reserve_flow in
      let base = base_units decimals in
      let (premium_value, e1, h1) = bind-inversion (PreciseUnitMath.precise_mul net premium) _ h in
      let (net_fees, e2, h2) = bind-inversion (PreciseUnitMath.precise_div net base) _ h1 in
      let (after, e3, h3) = bind-inversion (sm.sub net premium_value) _ h2 in
      let (both, e4, h4) = bind-inversion (PreciseUnitMath.precise_div after base) _ h3 in
      let (value, e5, h5) = bind-inversion (PreciseUnitMath.precise_mul supply valuation) _ h4 in
      let (raised, e6, h6) = bind-inversion (sm.add value net_fees) _ h5 in
      let (denominator, e7, h7) = bind-inversion (sm.sub raised both) _ h6 in
      let (numerator, e8, e9) = bind-inversion (PreciseUnitMath.precise_mul both supply) _ h7 in
      rw
        (
          has_supply,
          valued,
          fees_of-predicted p quantity f fees,
          mul-predicted net premium premium_value e1,
          sub-predicted net premium_value after e3,
          div-predicted net base net_fees e2,
          div-predicted after base both e4,
          mul-predicted supply valuation value e5,
          add-predicted value net_fees raised e6,
          sub-predicted raised both denominator e7,
          mul-predicted both supply numerator e8,
        )
        (div-predicted numerator denominator minted e9)

  ceil-predicted :
      (a b n : ℕ)
      → PreciseUnitMath.precise_mul_ceil a b ≡ ok n
      → MathUtils.precise_mul_ceil (pos a) (pos b) ≡ ok (pos n)
  ceil-predicted a b n h =
      precise_mul_ceil-agrees a b (precise_mul_ceil-fits a b n h) ∙ ap as_big_number h

  whole-predicted : (n : ℕ) → MathUtils.precise_mul (pos n) (pos (10 ^ 18)) ≡ ok (pos n)
  whole-predicted n = precise_mul-pos n (10 ^ 18) ∙ ap (λ x. ok (pos x)) (omega arith)

  -- For a reserve asset of 18 decimals, where `_getRedeemReserveQuantity` and `_getFees` return, the
  -- utility expects of the redeemed shares exactly what the contract pays out.
  pub redeem_quantity-predicted :
      (valuation premium quantity : ℕ) (p : Percentages) (reserve : ℕ) (f : Fees)
      → get_redeem_reserve_quantity (ok valuation) (ok 18) premium quantity ≡ ok reserve
      → fees_of p reserve ≡ ok f
      → get_expected_reserve_redeem_quantity
          (pos quantity)
          (pos valuation)
          (pos (10 ^ 18))
          (pos p.manager)
          (pos p.protocol)
          (pos premium)
        ≡ ok (pos f.net_reserve_flow)
  unfolding get_redeem_reserve_quantity get_expected_reserve_redeem_quantity
  redeem_quantity-predicted valuation premium quantity p reserve f h fees =
      let (total, e1, h1) = bind-inversion (PreciseUnitMath.precise_mul quantity valuation) _ h in
      let (pre_premium, e2, h2) =
        bind-inversion (PreciseUnitMath.precise_mul total (base_units 18)) _ h1 in
      let (premium_quantity, e3, e4) =
        bind-inversion (PreciseUnitMath.precise_mul_ceil pre_premium premium) _ h2 in
      let same : pre_premium ≡ total =
        (precise_mul-inversion total (base_units 18) pre_premium e2).1 ∙ omega arith in
      let e3' =
        subst (λ x. PreciseUnitMath.precise_mul_ceil x premium ≡ ok premium_quantity) same e3 in
      let e4' = subst (λ x. sm.sub x premium_quantity ≡ ok reserve) same e4 in
      rw
        (
          swapped-predicted quantity valuation total e1,
          ceil-predicted total premium premium_quantity e3',
          sub-predicted total premium_quantity reserve e4',
          fees_of-predicted p reserve f fees,
        )
        (whole-predicted f.net_reserve_flow)
