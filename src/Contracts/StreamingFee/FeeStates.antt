-- ===== src/Contracts/StreamingFee/FeeStates.antt =====
-- contracts/protocol/modules/StreamingFeeModule.sol: the fee states that the module reaches.
use set_protocol_v2_contract.Common.{
  ℕ, ◌^◌, ◌<◌, ◌≤◌, ◌≡◌, ◌≢◌, ◌⊎◌, ok, refl, sym, subst, arith, ltb, ◌==◌, Bool-cases,
  bind-inversion, Result-cases, inl, inr,
}
use set_protocol_v2_contract.External.OpenZeppelin.{SafeMath, SignedSafeMath, SafeCast, Erc20}
use set_protocol_v2_contract.Contracts.Storage.{update}
use set_protocol_v2_contract.Contracts.Controller.{Controller}
use set_protocol_v2_contract.Contracts.SetToken.{SetToken}
use set_protocol_v2_contract.Contracts.StreamingFee.{
  World, FeeState, Accrued, no_fee_state, initialize, accrue_fee, update_streaming_fee,
  update_fee_recipient, remove_module, inflate, calculate_streaming_fee,
  calculate_streaming_fee_inflation, mint_manager_and_protocol_fee, edit_token_multiplier,
  only_valid_and_initialized_set, only_valid_and_pending_set, only_set_manager,
}

-- The fee is at most the maximum, the maximum is below 100%, and a state that is not deleted has a
-- recipient.
pub record IsCapped (s : FeeState) : Type 0 where
  pub fee_capped : s.streaming_fee_percentage ≤ s.max_streaming_fee_percentage
  pub below_all : s.max_streaming_fee_percentage < 10 ^ 18
  pub recipient : (s.fee_recipient ≢ 0) ⊎ (s.max_streaming_fee_percentage ≡ 0)

abbrev pub AreCapped : (ℕ → FeeState) → Type 0
AreCapped states = (set_token : ℕ) → IsCapped (states set_token)

update-AreCapped :
    (states : ℕ → FeeState) (set_token : ℕ) (s : FeeState)
    → IsCapped s
    → AreCapped states
    → AreCapped (update states set_token s)
update-AreCapped states set_token s new all a = elim (Bool-cases (a == set_token)) [
  | inl here ↦ rw here new
  | inr other ↦ rw other (all a)
]

stamped-IsCapped :
    (s : FeeState) (now : ℕ)
    → IsCapped s
    → IsCapped (record s { last_streaming_fee_timestamp = now })
stamped-IsCapped s now c = record {
  fee_capped = c.fee_capped;
  below_all = c.below_all;
  recipient = c.recipient;
}

module _ (this : ℕ) ⦃sm : SafeMath⦄ ⦃ssm : SignedSafeMath⦄ ⦃sc : SafeCast⦄ ⦃erc20 : Erc20⦄ where
  -- What happens to the module: its functions where they succeed, and any change of the controller
  -- and of the tokens.
  pub data Step : World → World → Type 0 where
    initializes :
        (w : World) (now sender set_token : ℕ) (settings : FeeState) (w' : World)
        → initialize this w now sender set_token settings ≡ ok w'
        → Step w w'
    accrues :
        (w : World) (now set_token : ℕ) (a : Accrued)
        → accrue_fee this w now set_token ≡ ok a
        → Step w a.world
    updates_streaming_fee :
        (w : World) (now sender set_token new_fee : ℕ) (w' : World)
        → update_streaming_fee this w now sender set_token new_fee ≡ ok w'
        → Step w w'
    updates_fee_recipient :
        (w : World) (sender set_token new_fee_recipient : ℕ) (w' : World)
        → update_fee_recipient this w sender set_token new_fee_recipient ≡ ok w'
        → Step w w'
    removes : (w : World) (sender : ℕ) → Step w (remove_module w sender)
    elsewhere :
        (w : World) (c : Controller) (tokens : ℕ → SetToken)
        → Step w (record w { controller = c; tokens = tokens })

  minted_states :
      (w : World) (set_token q : ℕ) (a : Accrued)
      → mint_manager_and_protocol_fee this w set_token q ≡ ok a
      → a.world.fee_states ≡ w.fee_states
  unfolding mint_manager_and_protocol_fee
  minted_states w set_token q a h = ground arith

  scaled_states :
      (w : World) (set_token f : ℕ) (w' : World)
      → edit_token_multiplier this w set_token f ≡ ok w'
      → w'.fee_states ≡ w.fee_states
  unfolding edit_token_multiplier
  scaled_states w set_token f w' h = ground arith

  inflated_states :
      (w : World) (now set_token : ℕ) (a : Accrued)
      → inflate this w now set_token ≡ ok a
      → a.world.fee_states ≡ w.fee_states
  unfolding inflate
  inflated_states w now set_token a h =
      let (f, e, h1) = bind-inversion (calculate_streaming_fee w now set_token) _ h in
      let (q, e1, h2) = bind-inversion (calculate_streaming_fee_inflation w set_token f) _ h1 in
      let (b, e2, h3) = bind-inversion (mint_manager_and_protocol_fee this w set_token q) _ h2 in
      let (w', e3, h4) = bind-inversion (edit_token_multiplier this b.world set_token f) _ h3 in
      let kept = minted_states w set_token q b e2 in
      let kept_too = scaled_states b.world set_token f w' e3 in ground arith

  accrued_states :
      (w : World) (now set_token : ℕ) (a : Accrued)
      → accrue_fee this w now set_token ≡ ok a
      → a.world.fee_states
        ≡ update w.fee_states set_token
            (record (w.fee_states set_token) { last_streaming_fee_timestamp = now })
  unfolding accrue_fee only_valid_and_initialized_set
  accrued_states w now set_token a h =
      elim (Bool-cases (ltb 0 (w.fee_states set_token).streaming_fee_percentage)) [
        | inr none ↦ ground arith
        | inl some ↦ elim (Result-cases (inflate this w now set_token)) [
          | inr (y, e) ↦ absurd (ground arith)
          | inl (b, e) ↦ let kept = inflated_states w now set_token b e in ground arith
        ]
      ]

  accrued-AreCapped :
      (w : World) (now set_token : ℕ) (a : Accrued)
      → accrue_fee this w now set_token ≡ ok a
      → AreCapped w.fee_states
      → AreCapped a.world.fee_states
  accrued-AreCapped w now set_token a h all =
      subst AreCapped (sym (accrued_states w now set_token a h)) (
        update-AreCapped w.fee_states set_token _
          (stamped-IsCapped (w.fee_states set_token) now (all set_token)) all)

  pub Step-AreCapped : (w w' : World) → Step w w' → AreCapped w.fee_states → AreCapped w'.fee_states
  unfolding initialize update_streaming_fee update_fee_recipient only_set_manager
      only_valid_and_initialized_set only_valid_and_pending_set remove_module
  Step-AreCapped w w' (initializes _ now sender set_token settings _ h) all =
      let new : IsCapped (record settings { last_streaming_fee_timestamp = now }) = record {
        fee_capped = ground arith;
        below_all = ground arith;
        recipient = inl (ground arith);
      } in
      let states : w'.fee_states
          ≡ update w.fee_states set_token (record settings { last_streaming_fee_timestamp = now }) =
        ground arith in
      subst AreCapped (sym states) (update-AreCapped w.fee_states set_token _ new all)
  Step-AreCapped w _ (accrues _ now set_token a h) all = accrued-AreCapped w now set_token a h all
  Step-AreCapped w w' (updates_streaming_fee _ now sender set_token new_fee _ h) all =
      elim (Result-cases (accrue_fee this w now set_token)) [
        | inr (y, e) ↦ absurd (ground arith)
        | inl (a, e) ↦
            let s = w.fee_states set_token in
            let kept = accrued_states w now set_token a e in
            let capped : AreCapped a.world.fee_states = accrued-AreCapped w now set_token a e all in
            let new : IsCapped
                (record (a.world.fee_states set_token) { streaming_fee_percentage = new_fee }) =
              record {
                fee_capped = ground arith;
                below_all = (capped set_token).below_all;
                recipient = (capped set_token).recipient;
              } in
            let states : w'.fee_states
                ≡ update a.world.fee_states set_token
                    (record (a.world.fee_states set_token) { streaming_fee_percentage = new_fee }) =
              ground arith in
            subst AreCapped (sym states)
              (update-AreCapped a.world.fee_states set_token _ new capped)
      ]
  Step-AreCapped w w' (updates_fee_recipient _ sender set_token x _ h) all =
      let new : IsCapped (record (w.fee_states set_token) { fee_recipient = x }) = record {
        fee_capped = (all set_token).fee_capped;
        below_all = (all set_token).below_all;
        recipient = inl (ground arith);
      } in
      let states : w'.fee_states
          ≡ update w.fee_states set_token (record (w.fee_states set_token) { fee_recipient = x }) =
        ground arith in
      subst AreCapped (sym states) (update-AreCapped w.fee_states set_token _ new all)
  Step-AreCapped w _ (removes _ sender) all =
      let gone : IsCapped no_fee_state = record {
        fee_capped = ground arith;
        below_all = ground arith;
        recipient = inr refl;
      } in
      update-AreCapped w.fee_states sender no_fee_state gone all
  Step-AreCapped w _ (elsewhere _ c tokens) all = all

  -- Any number of steps from a module that has just been deployed.
  pub data IsReachable : World → Type 0 where
    deployed :
        (c : Controller) (tokens : ℕ → SetToken)
        → IsReachable (record { controller = c; tokens = tokens; fee_states = λ _. no_fee_state })
    then_step : (w w' : World) → IsReachable w → Step w w' → IsReachable w'

  -- Whatever the managers, the accruals, the removals and the rest of the system do, in any order,
  -- every streaming fee stays at most its maximum, every maximum stays below 100%, and a token whose
  -- maximum is not zero has a fee recipient.
  pub reachable-AreCapped : (w : World) → IsReachable w → AreCapped w.fee_states
  reachable-AreCapped _ (deployed c tokens) = λ set_token. record {
    fee_capped = ground arith;
    below_all = ground arith;
    recipient = inr refl;
  }
  reachable-AreCapped w' (then_step w _ before step) =
      Step-AreCapped w w' step (reachable-AreCapped w before)
