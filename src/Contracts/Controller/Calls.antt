-- ===== src/Contracts/Controller/Calls.antt =====
-- The transactions of contracts/protocol/Controller.sol, and a history of them.
use set_protocol_v2_contract.Common.{ℕ, List, [], ◌∷◌, Result, ok, err}
use set_protocol_v2_contract.Contracts.Controller.{
  Controller, initialize, add_set, remove_set, add_factory, remove_factory, add_module,
  remove_module, add_resource, remove_resource, add_fee, edit_fee, edit_fee_recipient,
}

pub data Call : Type 0 where
  initializes : List ℕ → List ℕ → List ℕ → List ℕ → Call
  adds_set removes_set adds_factory removes_factory adds_module removes_module : ℕ → Call
  adds_resource : ℕ → ℕ → Call
  removes_resource : ℕ → Call
  adds_fee edits_fee : ℕ → ℕ → ℕ → Call
  edits_fee_recipient : ℕ → Call

module _ (only_owner : ℕ → Result (Unit {0})) where
  -- One transaction of a sender.
  abbrev pub apply : Controller → ℕ → Call → Result Controller
  apply c sender (initializes f m r i) = initialize only_owner c sender f m r i
  apply c sender (adds_set a) = add_set c sender a
  apply c sender (removes_set a) = remove_set only_owner c sender a
  apply c sender (adds_factory a) = add_factory only_owner c sender a
  apply c sender (removes_factory a) = remove_factory only_owner c sender a
  apply c sender (adds_module a) = add_module only_owner c sender a
  apply c sender (removes_module a) = remove_module only_owner c sender a
  apply c sender (adds_resource a i) = add_resource only_owner c sender a i
  apply c sender (removes_resource i) = remove_resource only_owner c sender i
  apply c sender (adds_fee m t p) = add_fee only_owner c sender m t p
  apply c sender (edits_fee m t p) = edit_fee only_owner c sender m t p
  apply c sender (edits_fee_recipient a) = edit_fee_recipient only_owner c sender a

  -- A transaction that reverts leaves the state.
  abbrev pub after : Controller → Result Controller → Controller
  after c (ok d) = d
  after c (err e) = c

  unfoldable pub run : Controller → List (ℕ × Call) → Controller
  run c [] = c
  run c ((sender, call) ∷ calls) = run (after c (apply c sender call)) calls
