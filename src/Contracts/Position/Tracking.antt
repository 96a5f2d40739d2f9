-- ===== src/Contracts/Position/Tracking.antt =====
-- contracts/protocol/lib/Position.sol: what an edit from the balance leaves covered.
use native.Mathlib.Nat.{div-mul-le_self, mul-le-mul_right}
use set_protocol_v2_contract.Common.{
  ℕ, Bool, suc, ◌+◌, ◌-◌, ◌*◌, ◌/◌, ◌^◌, ◌≤◌, ◌<◌, ◌≡◌, ok, arith, sym, ap, ◌∙◌, subst, inl, inr,
  Bool-cases, ltb, bind-inversion, if◌then◌else◌, ok_injective, refl, Result, ◌⊎◌, ◌==◌,
}
use set_protocol_v2_contract.Common.Integer.{pos}
use set_protocol_v2_contract.External.OpenZeppelin.{SafeMath, SignedSafeMath, SafeCast}
use set_protocol_v2_contract.External.TokenContracts.{Erc20Contracts}
use set_protocol_v2_contract.Contracts.PreciseUnitMath.{precise_mul}
use set_protocol_v2_contract.Contracts.PreciseUnitMath.Unsigned.{
  precise_mul-inversion, precise_div-inversion,
}
use set_protocol_v2_contract.Contracts.SetToken.{
  SetToken, get_default_position_real_unit, edit_default_position_unit, add_component,
  remove_component,
}
use set_protocol_v2_contract.Contracts.SetToken.Inversion.{
  add_component_inversion, remove_component_inversion,
}
use set_protocol_v2_contract.Contracts.SetToken.Rounding.{edit_default_position_unit-reads_back}
use set_protocol_v2_contract.Contracts.Position.{
  EditedPosition, has_default_position, has_external_position, update_component,
  edit_default_position, calculate_default_edit_position_unit, calculate_and_edit_default_position,
}

module _ ⦃sm : SafeMath⦄ where
  -- The new unit times the supply is covered by what the action left less what was airdropped before it.
  pub calculate_default_edit_position_unit-covers :
      (supply pre_notional post_notional pre_unit n : ℕ)
      → calculate_default_edit_position_unit supply pre_notional post_notional pre_unit ≡ ok n
      → n * supply + (pre_notional - pre_unit * supply / 10 ^ 18) * 10 ^ 18
        ≤ post_notional * 10 ^ 18
  unfolding calculate_default_edit_position_unit
  calculate_default_edit_position_unit-covers supply pre_notional post_notional pre_unit n h =
      let (tracked, e1, h1) = bind-inversion (precise_mul pre_unit supply) _ h in
      let (airdropped, e2, h2) = bind-inversion (sm.sub pre_notional tracked) _ h1 in
      let (left, e3, h3) = bind-inversion (sm.sub post_notional airdropped) _ h2 in
      let (fits, floor) = precise_mul-inversion pre_unit supply tracked e1 in
      let (some, _, quotient) = precise_div-inversion left supply n h3 in
      let below : n * supply ≤ left * 10 ^ 18 =
        subst (λ x. x * supply ≤ left * 10 ^ 18) (sym quotient)
          (div-mul-le_self (left * 10 ^ 18) supply) in
      let gap : airdropped ≡ pre_notional - tracked =
        ground (arith, sm.sub_lem pre_notional tracked) in
      let rest : left + airdropped ≡ post_notional =
        ground (arith, sm.sub_lem post_notional airdropped) in
      rw (sym floor, sym gap) (omega (arith, below, rest))

module _ (is_module : ℕ → Bool) ⦃ssm : SignedSafeMath⦄ where
  update_component-cases :
      (t : SetToken) (sender component : ℕ) (found : Bool) (new_unit : ℕ) (t' : SetToken)
      → update_component is_module t sender component found new_unit ≡ ok t'
      → (t' ≡ t)
        ⊎ (add_component is_module t sender component ≡ ok t')
        ⊎ (remove_component is_module t sender component ≡ ok t')
  unfolding update_component
  update_component-cases t sender component found new_unit t' h =
      elim (Bool-cases (has_external_position t component)) [
        | inl held ↦ inl (ground arith)
        | inr free ↦ elim (Bool-cases found) [
          | inl there ↦ elim (Bool-cases (new_unit == 0)) [
            | inl none ↦ inr (inr (ground arith))
            | inr some ↦ inl (ground arith)
          ]
          | inr missing ↦ elim (Bool-cases (ltb 0 new_unit)) [
            | inl some ↦ inr (inl (ground arith))
            | inr none ↦ inl (ground arith)
          ]
        ]
      ]

  update_component-multiplier :
      (t : SetToken) (sender component : ℕ) (found : Bool) (new_unit : ℕ) (t' : SetToken)
      → update_component is_module t sender component found new_unit ≡ ok t'
      → t'.position_multiplier ≡ t.position_multiplier
  update_component-multiplier t sender component found new_unit t' h =
      elim (update_component-cases t sender component found new_unit t' h) [
        | inl same ↦ ap (λ x. x.position_multiplier) same
        | inr (inl adds) ↦
            ap (λ x. x.position_multiplier)
              (add_component_inversion is_module t sender component t' adds).1
        | inr (inr removes) ↦
            let (B, _, same) = remove_component_inversion is_module t sender component t' removes in
            ap (λ x. x.position_multiplier) same
      ]

  -- The unit that an edit leaves reads as at most the one it was given.
  edit_default_position-reads :
      ⦃sc : SafeCast⦄ (t : SetToken) (sender component new_unit m : ℕ) (t' : SetToken)
      → t.position_multiplier ≡ pos (suc m)
      → edit_default_position is_module t sender component new_unit ≡ ok t'
      → (r : ℕ) × (get_default_position_real_unit t' component ≡ ok (pos r)) × (r ≤ new_unit)
  unfolding edit_default_position
  edit_default_position-reads ⦃sc⦄ t sender component new_unit m t' mult h =
      let (found, e1, h1) = bind-inversion (has_default_position t component) _ h in
      let (t1, e2, h2) =
        bind-inversion (update_component is_module t sender component found new_unit) _ h1 in
      let (unit, e3, h3) = bind-inversion (sc.to_int new_unit) _ h2 in
      let exact : unit ≡ pos new_unit = ground (arith, sc.to_int_lem new_unit) in
      let kept = update_component-multiplier t sender component found new_unit t1 e2 ∙ mult in
      let (r, reads, low, _) =
        edit_default_position_unit-reads_back is_module t1 sender component new_unit m t' kept (
          subst (λ u. edit_default_position_unit is_module t1 sender component u ≡ ok t') exact
            h3) in
      (r, reads, low)

module _ ⦃sm : SafeMath⦄ where
  -- The unit that `calculateAndEditDefaultPosition` computes.
  abbrev new_unit_of : ℕ → ℕ → ℕ → ℕ → Result ℕ
  new_unit_of current supply previous unit =
      if ltb 0 current
      then calculate_default_edit_position_unit supply previous current unit
      else ok 0

  -- A unit that is at most that one.
  new_unit-covers :
      (current supply previous unit n r : ℕ)
      → new_unit_of current supply previous unit ≡ ok n
      → r ≤ n
      → (r * supply ≤ current * 10 ^ 18)
        × (0 < current
            → r * supply + (previous - unit * supply / 10 ^ 18) * 10 ^ 18 ≤ current * 10 ^ 18)
  new_unit-covers current supply previous unit n r h low =
      let less : r * supply ≤ n * supply = mul-le-mul_right supply low in
      elim (Bool-cases (ltb 0 current)) [
        | inl some ↦
            let all =
              calculate_default_edit_position_unit-covers supply previous current unit n
                (ground arith) in
            (omega (arith, less, all), λ _. omega (arith, less, all))
        | inr none ↦
            let zero_unit : n ≡ 0 = ground arith in
            (omega (arith, less, ap (λ x. x * supply) zero_unit), λ some. absurd (ground arith))
      ]

module _ {S : Type 0} ⦃ssm : SignedSafeMath⦄ ⦃tc : Erc20Contracts S⦄ where
  -- The old unit is what the token reads, the new one reads, and times the supply it is at most the
  -- present balance. Where that is not zero, what was airdropped before the action stays uncovered:
  -- the balance before it less the old unit times the supply.
  abbrev pub LeavesCovered : S → SetToken → ℕ → ℕ → ℕ → ℕ → EditedPosition → Type 0
  LeavesCovered s t set_token component supply previous_balance edited =
      (edited.current_balance ≡ tc.balance_of s component set_token)
      × (get_default_position_real_unit t component ≡ ok (pos edited.previous_unit))
      × ((unit : ℕ) × (get_default_position_real_unit edited.edited_token component ≡ ok (pos unit))
          × (unit * supply ≤ edited.current_balance * 10 ^ 18)
          × (0 < edited.current_balance
              → unit * supply
                  + (previous_balance - edited.previous_unit * supply / 10 ^ 18) * 10 ^ 18
                ≤ edited.current_balance * 10 ^ 18))

module _ {S : Type 0} (is_module : ℕ → Bool) ⦃sm : SafeMath⦄ ⦃ssm : SignedSafeMath⦄ ⦃sc : SafeCast⦄
    ⦃tc : Erc20Contracts S⦄ where
  -- When `calculateAndEditDefaultPosition` succeeds on a token whose multiplier is positive, the
  -- component's new unit reads, and times the supply it is at most the present balance; where that
  -- is not zero, what was airdropped before the action stays uncovered on top of it.
  pub calculate_and_edit_default_position-covers :
      (s : S) (t : SetToken) (sender set_token component supply previous_balance m : ℕ)
      (edited : EditedPosition)
      → t.position_multiplier ≡ pos (suc m)
      → calculate_and_edit_default_position is_module s t sender set_token component supply
          previous_balance
        ≡ ok edited
      → LeavesCovered s t set_token component supply previous_balance edited
  unfolding calculate_and_edit_default_position
  calculate_and_edit_default_position-covers s t sender set_token component supply previous_balance
        m edited mult h =
      let current = tc.balance_of s component set_token in
      let (real_unit, e1, h1) = bind-inversion (get_default_position_real_unit t component) _ h in
      let (unit, e2, h2) = bind-inversion (sc.to_uint real_unit) _ h1 in
      let (n, e3, h3) = bind-inversion (new_unit_of current supply previous_balance unit) _ h2 in
      let (t', e4, h4) =
        bind-inversion (edit_default_position is_module t sender component n) _ h3 in
      let whole : real_unit ≡ pos unit = ground (arith, sc.to_uint_lem real_unit) in
      let (r, reads, low) =
        edit_default_position-reads is_module t sender component n m t' mult e4 in
      let is : record {
        edited_token = t';
        current_balance = current;
        previous_unit = unit;
        new_unit = n;
      }
          ≡ edited =
        ok_injective h4 in
      let (covered, kept) = new_unit-covers current supply previous_balance unit n r e3 low in
      subst (λ x. LeavesCovered s t set_token component supply previous_balance x) is
        (refl, e1 ∙ ap (λ x. ok x) whole, (r, reads, covered, kept))
