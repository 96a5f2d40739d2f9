-- ===== src/Contracts/Controller/Refinement.antt =====
-- contracts/protocol/Controller.sol: the contract does what the abstract registry promises.
use mathlib.Core.Path.{fun_ext}
use set_protocol_v2_contract.Common.{
  ℕ, Bool, true, false, List, [], ◌∷◌, ◌≡◌, refl, sym, ap, ◌∙◌, Result, ok, err, map_result,
  Result-cases, inl, inr, ◌⊎◌, Error, reason, Bool-cases, arith, if◌then◌else◌, ltb, ◌==◌,
}
use set_protocol_v2_contract.Common.Lists.{length, count}
use set_protocol_v2_contract.Contracts.Storage.{update, Lists, remove-Lists}
use set_protocol_v2_contract.Contracts.Controller.{
  Controller, initialize, enable_all, enable_resources, only_initialized, only_factory, add_set,
  remove_set, add_factory, remove_factory, add_module, remove_module, add_resource, remove_resource,
  add_fee, edit_fee, edit_fee_recipient, set_fee,
}
use set_protocol_v2_contract.Contracts.Controller.Calls.{
  Call, apply, initializes, adds_set, removes_set, adds_factory, removes_factory, adds_module,
  removes_module, adds_resource, removes_resource, adds_fee, edits_fee, edits_fee_recipient,
}
use set_protocol_v2_contract.Contracts.Controller.Initialization.{
  enable_all_lem, enable_resources_lem,
}
use set_protocol_v2_contract.Contracts.Controller.Consistency.{
  IsConsistent, HasDistinctArrays, apply-IsConsistent,
}
use set_protocol_v2_contract.Contracts.Controller.Registry.{
  Registry, registry_of, listed, promised, all_non_zero, assign,
}

-- The registry that the mappings hold.
abbrev mapped : Controller → Registry
mapped c = record {
  sets = c.is_set;
  factories = c.is_factory;
  modules = c.is_module;
  resources = c.is_resource;
  ids = c.resource_id;
  fees = c.fees;
  fee_recipient = c.fee_recipient;
  is_initialized = c.is_initialized;
}

listed-is : (A : List ℕ) (m : ℕ → Bool) → Lists A m → listed A ≡ m
listed-is A m h = fun_ext (λ a. ground (arith, h a))

-- It is the one that the arrays list.
registry_of-mapped : (c : Controller) → IsConsistent c → registry_of c ≡ mapped c
registry_of-mapped c v = λ i. record {
  sets = listed-is c.sets c.is_set v.sets i;
  factories = listed-is c.factories c.is_factory v.factories i;
  modules = listed-is c.modules c.is_module v.modules i;
  resources = listed-is c.resources c.is_resource v.resources i;
  ids = c.resource_id;
  fees = c.fees;
  fee_recipient = c.fee_recipient;
  is_initialized = c.is_initialized;
}

enable_all-cases :
    (A : List ℕ) (m : ℕ → Bool)
    → ((all_non_zero A ≡ ok tt) × (m' : ℕ → Bool) × (enable_all A m ≡ ok m'))
      ⊎ ((e : Error) × (all_non_zero A ≡ err e) × (enable_all A m ≡ err e))
unfolding enable_all
enable_all-cases [] m = inl (refl, m, refl)
enable_all-cases (x ∷ rest) m = elim (Bool-cases (x == 0)) [
  | inl zero_address ↦ inr (reason "Zero address submitted.", ground arith, ground arith)
  | inr fine ↦ elim (enable_all-cases rest (update m x true)) [
    | inl (passes, m', enables) ↦ inl (ground arith, m', ground arith)
    | inr (e, fails, reverts) ↦ inr (e, ground arith, ground arith)
  ]
]

enable_resources-cases :
    (A ids : List ℕ) (m : ℕ → Bool) (by_id : ℕ → ℕ)
    → ((m' : ℕ → Bool) × (by_id' : ℕ → ℕ) × (assign A ids by_id ≡ ok by_id')
        × (enable_resources A ids m by_id ≡ ok (m', by_id')))
      ⊎ ((e : Error) × (assign A ids by_id ≡ err e) × (enable_resources A ids m by_id ≡ err e))
unfolding enable_resources
enable_resources-cases [] ids m by_id = inl (m, by_id, refl, refl)
enable_resources-cases (x ∷ rest) [] m by_id = inl (m, by_id, refl, refl)
enable_resources-cases (x ∷ rest) (i ∷ ids) m by_id = elim (Bool-cases (x == 0)) [
  | inl zero_address ↦ inr (reason "Zero address submitted.", ground arith, ground arith)
  | inr fine ↦ elim (Bool-cases (by_id i == 0)) [
    | inr taken ↦ inr (reason "Resource ID already exists", ground arith, ground arith)
    | inl free ↦ elim (enable_resources-cases rest ids (update m x true) (update by_id i x)) [
      | inl (m', by_id', passes, enables) ↦ inl (m', by_id', ground arith, ground arith)
      | inr (e, fails, reverts) ↦ inr (e, ground arith, ground arith)
    ]
  ]
]

-- Where nothing was registered, the loop leaves what the array lists.
enabled-listed :
    (A : List ℕ) (m m' : ℕ → Bool)
    → ((a : ℕ) → m a ≡ false)
    → ((a : ℕ) → m' a ≡ (if ltb 0 (count a A) then true else m a))
    → listed A ≡ m'
enabled-listed A m m' none maps = fun_ext (λ a. ground (arith, none a, maps a))

module _ (only_owner : ℕ → Result (Unit {0})) where
  abbrev Refines : Controller → ℕ → Call → Type 0
  Refines c sender call =
      promised only_owner (mapped c) sender call
      ≡ map_result mapped (apply only_owner c sender call)

  initialize-Refines :
      (c : Controller) (sender : ℕ) (f m r ids : List ℕ)
      → HasDistinctArrays (initializes f m r ids)
      → IsConsistent c
      → Refines c sender (initializes f m r ids)
  unfolding initialize
  initialize-Refines c sender f m r ids (df, dm, dr) v = elim (Bool-cases c.is_initialized) [
    | inl started ↦ ground arith
    | inr before ↦ elim (Bool-cases (length r == length ids)) [
      | inr odd ↦ ground arith
      | inl even ↦ elim (enable_all-cases f c.is_factory) [
        | inr (e, fails, reverts) ↦ ground arith
        | inl (f_passes, is_f, fs) ↦ elim (enable_all-cases m c.is_module) [
          | inr (e, fails, reverts) ↦ ground arith
          | inl (m_passes, is_m, ms) ↦
              elim (enable_resources-cases r ids c.is_resource c.resource_id) [
                | inr (e, fails, reverts) ↦ ground arith
                | inl (is_r, by_id, r_passes, rs) ↦
                    let none = v.fresh before in
                    let (maps, _, _) =
                      enable_resources_lem r ids c.is_resource is_r c.resource_id by_id rs
                        (ground arith) dr (λ a _. (none a).2) v.resolved v.unique in
                    let pf =
                      enabled-listed f c.is_factory is_f (λ a. (none a).0)
                        (enable_all_lem f c.is_factory is_f fs) in
                    let pm =
                      enabled-listed m c.is_module is_m (λ a. (none a).1)
                        (enable_all_lem m c.is_module is_m ms) in
                    let pr = enabled-listed r c.is_resource is_r (λ a. (none a).2) maps in
                    ground (arith, pf, pm, pr)
              ]
        ]
      ]
    ]
  ]

  apply-Refines :
      (c : Controller) (sender : ℕ) (call : Call)
      → HasDistinctArrays call
      → IsConsistent c
      → Refines c sender call
  unfolding add_set only_initialized only_factory add_factory add_module add_resource add_fee
      edit_fee edit_fee_recipient set_fee remove_set remove_factory remove_module remove_resource
  apply-Refines c sender (initializes f m r ids) distinct v =
      initialize-Refines c sender f m r ids distinct v
  apply-Refines c sender (adds_set a) distinct v = ground arith
  apply-Refines c sender (removes_set a) distinct v = elim (Bool-cases (c.is_set a)) [
    | inl old ↦ let (B, removes, _) = remove-Lists c.sets c.is_set a old v.sets in ground arith
    | inr absent ↦ ground arith
  ]
  apply-Refines c sender (adds_factory a) distinct v = ground arith
  apply-Refines c sender (removes_factory a) distinct v = elim (Bool-cases (c.is_factory a)) [
    | inl old ↦
        let (B, removes, _) = remove-Lists c.factories c.is_factory a old v.factories in
        ground arith
    | inr absent ↦ ground arith
  ]
  apply-Refines c sender (adds_module a) distinct v = ground arith
  apply-Refines c sender (removes_module a) distinct v = elim (Bool-cases (c.is_module a)) [
    | inl old ↦
        let (B, removes, _) = remove-Lists c.modules c.is_module a old v.modules in ground arith
    | inr absent ↦ ground arith
  ]
  apply-Refines c sender (adds_resource a i) distinct v = ground arith
  apply-Refines c sender (removes_resource i) distinct v =
      elim (Bool-cases (c.resource_id i == 0)) [
        | inl unused ↦ ground arith
        | inr used ↦
            let (B, removes, _) =
              remove-Lists c.resources c.is_resource (c.resource_id i)
                (v.resolved i (λ e. ground arith)) v.resources in
            ground arith
      ]
  apply-Refines c sender (adds_fee x t p) distinct v = ground arith
  apply-Refines c sender (edits_fee x t p) distinct v = ground arith
  apply-Refines c sender (edits_fee_recipient a) distinct v = ground arith

  -- On a consistent controller every transaction, reverted ones included, gives exactly what the
  -- abstract registry of its arrays promises: the same error, or the registry of the new arrays,
  -- where an `initialize` lists no address twice. The mappings and the orders in the arrays are
  -- details that no transaction depends on.
  pub apply-refines_registry :
      (c : Controller) (sender : ℕ) (call : Call)
      → HasDistinctArrays call
      → IsConsistent c
      → promised only_owner (registry_of c) sender call
        ≡ map_result registry_of (apply only_owner c sender call)
  apply-refines_registry c sender call distinct v =
      ap (λ r. promised only_owner r sender call) (registry_of-mapped c v)
      ∙ apply-Refines c sender call distinct v
      ∙ elim (Result-cases (apply only_owner c sender call)) [
        | inr (e, reverts) ↦
            ap (map_result mapped) reverts ∙ sym (ap (map_result registry_of) reverts)
        | inl (d, succeeds) ↦
            ap (map_result mapped) succeeds
            ∙ ap (λ r. ok r)
                (sym (
                  registry_of-mapped d
                    (apply-IsConsistent only_owner c sender call d distinct v succeeds)))
            ∙ sym (ap (map_result registry_of) succeeds)
      ]
