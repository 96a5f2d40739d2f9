-- ===== src/Contracts/Controller/Consistency.antt =====
-- contracts/protocol/Controller.sol: the arrays and the mappings of the registry agree.
use set_protocol_v2_contract.Common.{
  ◌∙◌, ltb, sym, ok_injective, subst, ℕ, ◌≡◌, refl, Bool, true, false, List, Result, ok, arith,
  if◌then◌else◌,
}
use set_protocol_v2_contract.Common.Lists.{count}
use set_protocol_v2_contract.Contracts.AddressArrayUtils.Membership.{IsDistinct}
use set_protocol_v2_contract.Contracts.Storage.{update, Lists, push-Lists, remove-Lists}
use set_protocol_v2_contract.Contracts.Controller.{Controller, create, initialize, set_fee}
use set_protocol_v2_contract.Contracts.Controller.Calls.{
  Call, initializes, adds_set, removes_set, adds_factory, removes_factory, adds_module,
  removes_module, adds_resource, removes_resource, adds_fee, edits_fee, edits_fee_recipient, apply,
}
use set_protocol_v2_contract.Contracts.Controller.Inversion.{
  initialize_inversion, add_set_inversion, remove_set_inversion, add_factory_inversion,
  remove_factory_inversion, add_module_inversion, remove_module_inversion, add_resource_inversion,
  remove_resource_inversion, add_fee_inversion, edit_fee_inversion, edit_fee_recipient_inversion,
}
use set_protocol_v2_contract.Contracts.Controller.Initialization.{
  Resolved, Unique, enable_all_lem, enable_resources_lem, Resolved-update, Unique-update,
}

-- Each array lists the addresses of its mapping, once each; each resource ID in use leads to a
-- listed resource, and no two lead to the same. Before `initialize` nothing is registered.
pub record IsConsistent (c : Controller) : Type 0 where
  pub sets : Lists c.sets c.is_set
  pub factories : Lists c.factories c.is_factory
  pub modules : Lists c.modules c.is_module
  pub resources : Lists c.resources c.is_resource
  pub resolved : Resolved c.is_resource c.resource_id
  pub unique : Unique c.resource_id
  pub fresh :
      c.is_initialized ≡ false
      → (a : ℕ)
      → (c.is_factory a ≡ false)
        × (c.is_module a ≡ false)
        × (c.is_resource a ≡ false)
        × (c.resource_id a ≡ 0)

pub create-IsConsistent : (fee_recipient : ℕ) → IsConsistent (create fee_recipient)
unfolding create
create-IsConsistent r = record {
  sets = λ a. refl;
  factories = λ a. refl;
  modules = λ a. refl;
  resources = λ a. refl;
  resolved = λ i h. absurd (h refl);
  unique = λ i j h e. absurd (h refl);
  fresh = λ e a. (refl, refl, refl, refl);
}

-- A removed resource leaves the IDs of the others.
remove_resource-Resolved :
    (c : Controller) (i : ℕ)
    → IsConsistent c
    → Resolved (update c.is_resource (c.resource_id i) false) (update c.resource_id i 0)
remove_resource-Resolved c i v j ne = ground (arith, v.resolved j, v.unique i j)

remove_resource-Unique :
    (c : Controller) (i : ℕ) → IsConsistent c → Unique (update c.resource_id i 0)
remove_resource-Unique c i v j k ne e = ground (arith, v.unique j k)

set_fee-IsConsistent :
    (c : Controller) (m t p : ℕ) → IsConsistent c → IsConsistent (set_fee c m t p)
unfolding set_fee
set_fee-IsConsistent c m t p v = record {
  sets = v.sets;
  factories = v.factories;
  modules = v.modules;
  resources = v.resources;
  resolved = v.resolved;
  unique = v.unique;
  fresh = v.fresh;
}

-- The arrays of an `initialize` are distinct; the other calls carry no array.
abbrev pub HasDistinctArrays : Call → Type 0
HasDistinctArrays (initializes f m r ids) = IsDistinct f × IsDistinct m × IsDistinct r
HasDistinctArrays (adds_set a) = Unit {0}
HasDistinctArrays _ = Unit {0}

distinct-Lists :
    (A : List ℕ) (m m' : ℕ → Bool)
    → IsDistinct A
    → ((a : ℕ) → m a ≡ false)
    → ((a : ℕ) → m' a ≡ (if ltb 0 (count a A) then true else m a))
    → Lists A m'
distinct-Lists A m m' d none_before maps a = ground (arith, d a, none_before a, maps a)

module _ (only_owner : ℕ → Result (Unit {0})) where
  initialize-IsConsistent :
      (c : Controller) (sender : ℕ) (f m r ids : List ℕ) (d : Controller)
      → HasDistinctArrays (initializes f m r ids)
      → IsConsistent c
      → initialize only_owner c sender f m r ids ≡ ok d
      → IsConsistent d
  initialize-IsConsistent c sender f m r ids d (df, dm, dr) v h =
      let (_, uninitialized, lengths, (is_f, is_m, is_r, by_id, fs, ms, rs, e)) =
        initialize_inversion only_owner c sender f m r ids d h in
      let before = v.fresh uninitialized in
      let (maps, resolved, unique) =
        enable_resources_lem r ids c.is_resource is_r c.resource_id by_id rs lengths dr
          (λ a _. (before a).2) v.resolved v.unique in
      subst IsConsistent (sym e) (record {
        sets = v.sets;
        factories =
            distinct-Lists f c.is_factory is_f df (λ a. (before a).0)
              (enable_all_lem f c.is_factory is_f fs);
        modules =
            distinct-Lists m c.is_module is_m dm (λ a. (before a).1)
              (enable_all_lem m c.is_module is_m ms);
        resources = distinct-Lists r c.is_resource is_r dr (λ a. (before a).2) maps;
        resolved = resolved;
        unique = unique;
        fresh = λ false_now. absurd (cc);
      })

  -- Every successful transaction keeps the arrays and the mappings of the registry in step, provided
  -- that the arrays handed to `initialize` list no address twice.
  pub apply-IsConsistent :
      (c : Controller) (sender : ℕ) (call : Call) (d : Controller)
      → HasDistinctArrays call
      → IsConsistent c
      → apply only_owner c sender call ≡ ok d
      → IsConsistent d
  apply-IsConsistent c sender (initializes f m r ids) d distinct v h =
      initialize-IsConsistent c sender f m r ids d distinct v h
  apply-IsConsistent c sender (adds_set a) d _ v h =
      let (i, f, new, e) = add_set_inversion c sender a d h in
      subst IsConsistent (sym e) (record {
        sets = push-Lists c.sets c.is_set a new v.sets;
        factories = v.factories;
        modules = v.modules;
        resources = v.resources;
        resolved = v.resolved;
        unique = v.unique;
        fresh = v.fresh;
      })
  apply-IsConsistent c sender (removes_set a) d _ v h =
      let (i, o, old, (B, removes, e)) = remove_set_inversion only_owner c sender a d h in
      let (C, again, lists) = remove-Lists c.sets c.is_set a old v.sets in
      let same : C ≡ B = ok_injective (sym again ∙ removes) in
      subst IsConsistent (sym e) (record {
        sets = subst (λ B. Lists B (update c.is_set a false)) same lists;
        factories = v.factories;
        modules = v.modules;
        resources = v.resources;
        resolved = v.resolved;
        unique = v.unique;
        fresh = λ false_now. absurd (cc);
      })
  apply-IsConsistent c sender (adds_factory a) d _ v h =
      let (i, o, new, e) = add_factory_inversion only_owner c sender a d h in
      subst IsConsistent (sym e) (record {
        sets = v.sets;
        factories = push-Lists c.factories c.is_factory a new v.factories;
        modules = v.modules;
        resources = v.resources;
        resolved = v.resolved;
        unique = v.unique;
        fresh = λ false_now. absurd (cc);
      })
  apply-IsConsistent c sender (removes_factory a) d _ v h =
      let (i, o, old, (B, removes, e)) = remove_factory_inversion only_owner c sender a d h in
      let (C, again, lists) = remove-Lists c.factories c.is_factory a old v.factories in
      let same : C ≡ B = ok_injective (sym again ∙ removes) in
      subst IsConsistent (sym e) (record {
        sets = v.sets;
        factories = subst (λ B. Lists B (update c.is_factory a false)) same lists;
        modules = v.modules;
        resources = v.resources;
        resolved = v.resolved;
        unique = v.unique;
        fresh = λ false_now. absurd (cc);
      })
  apply-IsConsistent c sender (adds_module a) d _ v h =
      let (i, o, new, e) = add_module_inversion only_owner c sender a d h in
      subst IsConsistent (sym e) (record {
        sets = v.sets;
        factories = v.factories;
        modules = push-Lists c.modules c.is_module a new v.modules;
        resources = v.resources;
        resolved = v.resolved;
        unique = v.unique;
        fresh = λ false_now. absurd (cc);
      })
  apply-IsConsistent c sender (removes_module a) d _ v h =
      let (i, o, old, (B, removes, e)) = remove_module_inversion only_owner c sender a d h in
      let (C, again, lists) = remove-Lists c.modules c.is_module a old v.modules in
      let same : C ≡ B = ok_injective (sym again ∙ removes) in
      subst IsConsistent (sym e) (record {
        sets = v.sets;
        factories = v.factories;
        modules = subst (λ B. Lists B (update c.is_module a false)) same lists;
        resources = v.resources;
        resolved = v.resolved;
        unique = v.unique;
        fresh = λ false_now. absurd (cc);
      })
  apply-IsConsistent c sender (adds_resource a i) d _ v h =
      let (init, o, new, free, e) = add_resource_inversion only_owner c sender a i d h in
      subst IsConsistent (sym e) (record {
        sets = v.sets;
        factories = v.factories;
        modules = v.modules;
        resources = push-Lists c.resources c.is_resource a new v.resources;
        resolved = Resolved-update c.is_resource c.resource_id i a v.resolved;
        unique = Unique-update c.is_resource c.resource_id i a new v.resolved v.unique;
        fresh = λ false_now. absurd (cc);
      })
  apply-IsConsistent c sender (removes_resource i) d _ v h =
      let (init, o, used, (B, removes, e)) = remove_resource_inversion only_owner c sender i d h in
      let a = c.resource_id i in
      let (C, again, lists) =
        remove-Lists c.resources c.is_resource a (v.resolved i used) v.resources in
      let same : C ≡ B = ok_injective (sym again ∙ removes) in
      subst IsConsistent (sym e) (record {
        sets = v.sets;
        factories = v.factories;
        modules = v.modules;
        resources = subst (λ L. Lists L (update c.is_resource a false)) same lists;
        resolved = remove_resource-Resolved c i v;
        unique = remove_resource-Unique c i v;
        fresh = λ false_now. absurd (cc);
      })
  apply-IsConsistent c sender (adds_fee m t p) d _ v h =
      let (init, o, old, unset, e) = add_fee_inversion only_owner c sender m t p d h in
      subst IsConsistent (sym e) (set_fee-IsConsistent c m t p v)
  apply-IsConsistent c sender (edits_fee m t p) d _ v h =
      let (init, o, old, was_set, e) = edit_fee_inversion only_owner c sender m t p d h in
      subst IsConsistent (sym e) (set_fee-IsConsistent c m t p v)
  apply-IsConsistent c sender (edits_fee_recipient a) d _ v h =
      let (init, o, ne, e) = edit_fee_recipient_inversion only_owner c sender a d h in
      subst IsConsistent (sym e) (record {
        sets = v.sets;
        factories = v.factories;
        modules = v.modules;
        resources = v.resources;
        resolved = v.resolved;
        unique = v.unique;
        fresh = v.fresh;
      })
