-- ===== src/Contracts/Controller/Inversion.antt =====
-- contracts/protocol/Controller.sol: what a successful call has checked, and what it
-- leaves.
use set_protocol_v2_contract.Common.{
  Result-cases, ℕ, ◌≡◌, ◌≢◌, Bool, true, false, List, [], ◌∷◌, ◌++◌, Result, ok, arith, inl, inr,
}
use set_protocol_v2_contract.Common.Lists.{length}
use set_protocol_v2_contract.Contracts.AddressArrayUtils.{remove}
use set_protocol_v2_contract.Contracts.Storage.{update}
use set_protocol_v2_contract.Contracts.Controller.{
  Controller, enable_all, enable_resources, only_initialized, only_factory, initialize, add_set,
  remove_set, add_factory, remove_factory, add_module, remove_module, add_resource, remove_resource,
  add_fee, edit_fee, edit_fee_recipient, set_fee,
}

-- What a successful call of each operation has checked, and the state that it leaves.
pub add_set_inversion :
    (c : Controller) (sender a : ℕ) (d : Controller)
    → add_set c sender a ≡ ok d
    → (c.is_initialized ≡ true)
      × (c.is_factory sender ≡ true)
      × (c.is_set a ≡ false)
      × (d ≡ record c { is_set = update c.is_set a true; sets = c.sets ++ a ∷ [] })
unfolding add_set only_initialized only_factory
add_set_inversion c sender a d h = ground arith

module _ (only_owner : ℕ → Result (Unit {0})) where
  pub remove_set_inversion :
      (c : Controller) (sender a : ℕ) (d : Controller)
      → remove_set only_owner c sender a ≡ ok d
      → (c.is_initialized ≡ true)
        × (only_owner sender ≡ ok tt)
        × (c.is_set a ≡ true)
        × ((B : List ℕ) × (remove c.sets a ≡ ok B)
            × (d ≡ record c { sets = B; is_set = update c.is_set a false }))
  unfolding remove_set only_initialized
  remove_set_inversion c sender a d h = ground arith

  pub add_factory_inversion :
      (c : Controller) (sender a : ℕ) (d : Controller)
      → add_factory only_owner c sender a ≡ ok d
      → (c.is_initialized ≡ true)
        × (only_owner sender ≡ ok tt)
        × (c.is_factory a ≡ false)
        × (d ≡ record c {
          is_factory = update c.is_factory a true;
          factories = c.factories ++ a ∷ [];
        })
  unfolding add_factory only_initialized
  add_factory_inversion c sender a d h = ground arith

  pub remove_factory_inversion :
      (c : Controller) (sender a : ℕ) (d : Controller)
      → remove_factory only_owner c sender a ≡ ok d
      → (c.is_initialized ≡ true)
        × (only_owner sender ≡ ok tt)
        × (c.is_factory a ≡ true)
        × ((B : List ℕ) × (remove c.factories a ≡ ok B)
            × (d ≡ record c { factories = B; is_factory = update c.is_factory a false }))
  unfolding remove_factory only_initialized
  remove_factory_inversion c sender a d h = ground arith

  pub add_module_inversion :
      (c : Controller) (sender a : ℕ) (d : Controller)
      → add_module only_owner c sender a ≡ ok d
      → (c.is_initialized ≡ true)
        × (only_owner sender ≡ ok tt)
        × (c.is_module a ≡ false)
        × (d ≡ record c { is_module = update c.is_module a true; modules = c.modules ++ a ∷ [] })
  unfolding add_module only_initialized
  add_module_inversion c sender a d h = ground arith

  pub remove_module_inversion :
      (c : Controller) (sender a : ℕ) (d : Controller)
      → remove_module only_owner c sender a ≡ ok d
      → (c.is_initialized ≡ true)
        × (only_owner sender ≡ ok tt)
        × (c.is_module a ≡ true)
        × ((B : List ℕ) × (remove c.modules a ≡ ok B)
            × (d ≡ record c { modules = B; is_module = update c.is_module a false }))
  unfolding remove_module only_initialized
  remove_module_inversion c sender a d h = ground arith

  pub add_resource_inversion :
      (c : Controller) (sender a i : ℕ) (d : Controller)
      → add_resource only_owner c sender a i ≡ ok d
      → (c.is_initialized ≡ true)
        × (only_owner sender ≡ ok tt)
        × (c.is_resource a ≡ false)
        × (c.resource_id i ≡ 0)
        × (d ≡ record c {
          is_resource = update c.is_resource a true;
          resource_id = update c.resource_id i a;
          resources = c.resources ++ a ∷ [];
        })
  unfolding add_resource only_initialized
  add_resource_inversion c sender a i d h = ground arith

  pub remove_resource_inversion :
      (c : Controller) (sender i : ℕ) (d : Controller)
      → remove_resource only_owner c sender i ≡ ok d
      → (c.is_initialized ≡ true)
        × (only_owner sender ≡ ok tt)
        × (c.resource_id i ≢ 0)
        × ((B : List ℕ) × (remove c.resources (c.resource_id i) ≡ ok B)
            × (d ≡ record c {
              resources = B;
              resource_id = update c.resource_id i 0;
              is_resource = update c.is_resource (c.resource_id i) false;
            }))
  unfolding remove_resource only_initialized
  remove_resource_inversion c sender i d h = ground arith

  pub add_fee_inversion :
      (c : Controller) (sender m t p : ℕ) (d : Controller)
      → add_fee only_owner c sender m t p ≡ ok d
      → (c.is_initialized ≡ true)
        × (only_owner sender ≡ ok tt)
        × (c.is_module m ≡ true)
        × (c.fees m t ≡ 0)
        × (d ≡ set_fee c m t p)
  unfolding add_fee only_initialized
  add_fee_inversion c sender m t p d h = ground arith

  pub edit_fee_inversion :
      (c : Controller) (sender m t p : ℕ) (d : Controller)
      → edit_fee only_owner c sender m t p ≡ ok d
      → (c.is_initialized ≡ true)
        × (only_owner sender ≡ ok tt)
        × (c.is_module m ≡ true)
        × (c.fees m t ≢ 0)
        × (d ≡ set_fee c m t p)
  unfolding edit_fee only_initialized
  edit_fee_inversion c sender m t p d h = ground arith

  pub edit_fee_recipient_inversion :
      (c : Controller) (sender a : ℕ) (d : Controller)
      → edit_fee_recipient only_owner c sender a ≡ ok d
      → (c.is_initialized ≡ true)
        × (only_owner sender ≡ ok tt)
        × (a ≢ 0)
        × (d ≡ record c { fee_recipient = a })
  unfolding edit_fee_recipient only_initialized
  edit_fee_recipient_inversion c sender a d h = ground arith

  pub initialize_inversion :
      (c : Controller) (sender : ℕ) (f m r ids : List ℕ) (d : Controller)
      → initialize only_owner c sender f m r ids ≡ ok d
      → (only_owner sender ≡ ok tt)
        × (c.is_initialized ≡ false)
        × (length r ≡ length ids)
        × ((is_f is_m is_r : ℕ → Bool) × (by_id : ℕ → ℕ) × (enable_all f c.is_factory ≡ ok is_f)
            × (enable_all m c.is_module ≡ ok is_m)
            × (enable_resources r ids c.is_resource c.resource_id ≡ ok (is_r, by_id))
            × (d ≡ record c {
              factories = f;
              modules = m;
              resources = r;
              is_factory = is_f;
              is_module = is_m;
              is_resource = is_r;
              resource_id = by_id;
              is_initialized = true;
            }))
  unfolding initialize
  initialize_inversion c sender f m r ids d h = elim (Result-cases (enable_all f c.is_factory)) [
    | inr (e, reverts) ↦ absurd (ground arith)
    | inl (is_f, fs) ↦ elim (Result-cases (enable_all m c.is_module)) [
      | inr (e, reverts) ↦ absurd (ground arith)
      | inl (is_m, ms) ↦ elim (Result-cases (enable_resources r ids c.is_resource c.resource_id)) [
        | inr (e, reverts) ↦ absurd (ground arith)
        | inl ((is_r, by_id), rs) ↦ (
          ground arith,
          ground arith,
          ground arith,
          (is_f, is_m, is_r, by_id, fs, ms, rs, ground arith),
        )
      ]
    ]
  ]
