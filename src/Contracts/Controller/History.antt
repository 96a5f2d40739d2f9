-- ===== src/Contracts/Controller/History.antt =====
-- contracts/protocol/Controller.sol: histories of transactions, and what `initialize` lets through.
use set_protocol_v2_contract.Common.{
  ℕ, ◌≤◌, ◌<◌, ◌≡◌, false, List, [], ◌∷◌, Result, ok, arith, inl, inr, Result-cases, ok_injective,
  sym, subst, ◌∙◌, ap,
}
use set_protocol_v2_contract.Common.Lists.{count}
use set_protocol_v2_contract.Contracts.AddressArrayUtils.{remove}
use set_protocol_v2_contract.Contracts.AddressArrayUtils.Removal.{remove-remove_storage}
use set_protocol_v2_contract.Contracts.Controller.{Controller, create, initialize, remove_module}
use set_protocol_v2_contract.Contracts.Controller.Calls.{Call, apply, after, run}
use set_protocol_v2_contract.Contracts.Controller.Inversion.{
  initialize_inversion, remove_module_inversion,
}
use set_protocol_v2_contract.Contracts.Controller.Consistency.{
  IsConsistent, create-IsConsistent, HasDistinctArrays, apply-IsConsistent,
}

abbrev pub AllDistinct : List (ℕ × Call) → Type 0
AllDistinct [] = Unit {0}
AllDistinct ((sender, call) ∷ calls) = HasDistinctArrays call × AllDistinct calls

module _ (only_owner : ℕ → Result (Unit {0})) where
  after-IsConsistent :
      (c : Controller) (sender : ℕ) (call : Call)
      → HasDistinctArrays call
      → IsConsistent c
      → IsConsistent (after only_owner c (apply only_owner c sender call))
  after-IsConsistent c sender call distinct v =
      elim (Result-cases (apply only_owner c sender call)) [
        | inl (d, succeeds) ↦
            subst IsConsistent (sym (ap (after only_owner c) succeeds))
              (apply-IsConsistent only_owner c sender call d distinct v succeeds)
        | inr (e, reverts) ↦ subst IsConsistent (sym (ap (after only_owner c) reverts)) v
      ]

  run-IsConsistent :
      (c : Controller) (calls : List (ℕ × Call))
      → AllDistinct calls
      → IsConsistent c
      → IsConsistent (run only_owner c calls)
  unfolding run
  run-IsConsistent c [] distinct v = v
  run-IsConsistent c ((sender, call) ∷ calls) (now, later) v =
      run-IsConsistent (after only_owner c (apply only_owner c sender call)) calls later
        (after-IsConsistent c sender call now v)

  -- After any history of transactions of any senders on a new Controller, reverted ones included,
  -- the arrays and the mappings agree, provided that each `initialize` lists no address twice.
  pub run-create-IsConsistent :
      (fee_recipient : ℕ) (calls : List (ℕ × Call))
      → AllDistinct calls
      → IsConsistent (run only_owner (create fee_recipient) calls)
  run-create-IsConsistent r calls distinct =
      run-IsConsistent (create r) calls distinct (create-IsConsistent r)

  -- Without that condition they do not: `initialize` accepts a module that its array lists twice, and
  -- after `removeModule` it is disabled, and still listed.
  pub duplicate_module-stays :
      (c d e : Controller) (sender x : ℕ) (f m r ids : List ℕ)
      → 2 ≤ count x m
      → initialize only_owner c sender f m r ids ≡ ok d
      → remove_module only_owner d sender x ≡ ok e
      → (e.is_module x ≡ false) × (0 < count x e.modules)
  duplicate_module-stays c d e sender x f m r ids twice starts removes =
      let (_, _, _, (is_f, is_m, is_r, by_id, _, _, _, after_start)) =
        initialize_inversion only_owner c sender f m r ids d starts in
      let (_, _, _, (B, taken, after_removal)) =
        remove_module_inversion only_owner d sender x e removes in
      let listed : remove m x ≡ ok B =
        ap (λ (k : Controller). remove k.modules x) (sym after_start) ∙ taken in
      elim (remove-remove_storage m x) [
        | inl (absent, _, _) ↦ absurd (omega arith)
        | inr (B', C, removed, _, counts) ↦
            let same : B' ≡ B = ok_injective (sym removed ∙ listed) in
            let kept : 0 < count x B' = ground (arith, counts x) in
            (
              ap (λ (k : Controller). k.is_module x) after_removal ∙ ground arith,
              subst (λ L. 0 < count x L)
                  (same ∙ sym (ap (λ (k : Controller). k.modules) after_removal)) kept,
            )
      ]
