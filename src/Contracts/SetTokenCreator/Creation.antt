-- ===== src/Contracts/SetTokenCreator/Creation.antt =====
-- contracts/protocol/SetTokenCreator.sol: what a created token is.
use set_protocol_v2_contract.Common.{
  ℕ, Bool, suc, zero, ◌^◌, ◌*◌, ◌/◌, ◌<◌, ◌≡◌, ◌≢◌, true, false, not, List, [], ◌∷◌, ◌++◌, some, ok,
  arith, bind-inversion, require-inversion, ltb, ◌==◌, inl, inr, refl, subst, ap, ◌∙◌, Bool-cases,
  ok_injective,
}
use set_protocol_v2_contract.Common.Integer.{ℤ, pos, ltb_ℤ}
use set_protocol_v2_contract.Common.Lists.{length, get_elem?, count}
use set_protocol_v2_contract.External.OpenZeppelin.{SignedSafeMath, SafeCast, Erc20}
use set_protocol_v2_contract.Contracts.AddressArrayUtils.{has_duplicate}
use set_protocol_v2_contract.Contracts.AddressArrayUtils.Membership.{has_duplicate_lem, IsDistinct}
use set_protocol_v2_contract.Contracts.PreciseUnitMath.Conservative.{conservative_precise_mul_pos}
use set_protocol_v2_contract.Contracts.Storage.{update}
use set_protocol_v2_contract.Contracts.Controller.{Controller, add_set}
use set_protocol_v2_contract.Contracts.Controller.Inversion.{add_set_inversion}
use set_protocol_v2_contract.Contracts.SetToken.{
  ComponentPosition, ModuleState, pending, none_state, no_position, create, make_pending, set_units,
  get_default_position_real_unit, convert_virtual_to_real_unit,
}
use set_protocol_v2_contract.Contracts.SetToken.History.{IsReachable, created, done}
use set_protocol_v2_contract.Contracts.SetTokenCreator.{
  Created, check_components, check_modules, create_set_token,
}

make_pending-keeps :
    (modules : List ℕ) (states : ℕ → ModuleState) (m : ℕ)
    → states m ≡ pending
    → make_pending modules states m ≡ pending
unfolding make_pending
make_pending-keeps [] states m h = h
make_pending-keeps (x ∷ rest) states m h =
    make_pending-keeps rest (update states x pending) m (ground (arith, h))

-- The last write to a mapping of states is `pending` for each module listed.
make_pending-pending :
    (modules : List ℕ) (states : ℕ → ModuleState) (m : ℕ)
    → 0 < count m modules
    → make_pending modules states m ≡ pending
unfolding make_pending
make_pending-pending [] states m listed = absurd (ground arith)
make_pending-pending (x ∷ rest) states m listed = elim (Bool-cases (m == x)) [
  | inl here ↦ make_pending-keeps rest (update states x pending) m (ground arith)
  | inr other ↦ make_pending-pending rest (update states x pending) m (ground arith)
]

listed_at : (A : List ℕ) (i c : ℕ) → get_elem? A i ≡ some c → 0 < count c A
listed_at [] i c h = absurd (cc)
listed_at (x ∷ A) zero c h = ground arith
listed_at (x ∷ A) (suc i) c h = ground (arith, listed_at A i c h)

set_units-keeps :
    (components : List ℕ) (units : List ℤ) (positions : ℕ → ComponentPosition) (c : ℕ)
    → count c components ≡ 0
    → set_units components units positions c ≡ positions c
unfolding set_units
set_units-keeps [] units positions c absent = refl
set_units-keeps (x ∷ cs) [] positions c absent = refl
set_units-keeps (x ∷ cs) (u ∷ units) positions c absent =
    set_units-keeps cs units (update positions x (record (positions x) { virtual_unit = u })) c
      (ground arith)
    ∙ ground arith

-- A component that is listed once has the unit of its place.
set_units-units :
    (components : List ℕ) (units : List ℤ) (positions : ℕ → ComponentPosition) (i c : ℕ) (u : ℤ)
    → IsDistinct components
    → get_elem? components i ≡ some c
    → get_elem? units i ≡ some u
    → (set_units components units positions c).virtual_unit ≡ u
unfolding set_units
set_units-units [] units positions i c u d at_c at_u = absurd (cc)
set_units-units (x ∷ cs) [] positions i c u d at_c at_u = absurd (cc)
set_units-units (x ∷ cs) (v ∷ units) positions zero c u d at_c at_u =
    let here : x ≡ c = ground arith in
    ap (λ p. p.virtual_unit)
      (set_units-keeps cs units (update positions x (record (positions x) { virtual_unit = v })) c
        (ground (arith, d c)))
    ∙ ground arith
set_units-units (x ∷ cs) (v ∷ units) positions (suc i) c u d at_c at_u =
    set_units-units cs units (update positions x (record (positions x) { virtual_unit = v })) i c u
      (λ a. ground (arith, d a)) at_c at_u

check_components-passes :
    (components : List ℕ) (units : List ℤ) (i c : ℕ) (u : ℤ)
    → check_components components units ≡ ok tt
    → get_elem? components i ≡ some c
    → get_elem? units i ≡ some u
    → (c ≢ 0) × (ltb_ℤ (pos 0) u ≡ true)
unfolding check_components
check_components-passes [] units i c u h at_c at_u = absurd (cc)
check_components-passes (x ∷ cs) [] i c u h at_c at_u = absurd (cc)
check_components-passes (x ∷ cs) (v ∷ units) zero c u h at_c at_u =
    let here : x ≡ c = ground arith in
    let there : v ≡ u = cc in
    (ground arith, subst (λ z. ltb_ℤ (pos 0) z ≡ true) there (ground arith))
check_components-passes (x ∷ cs) (v ∷ units) (suc i) c u h at_c at_u =
    check_components-passes cs units i c u (ground arith) at_c at_u

check_modules-passes :
    (is_module : ℕ → Bool) (modules : List ℕ) (m : ℕ)
    → check_modules is_module modules ≡ ok tt
    → 0 < count m modules
    → is_module m ≡ true
unfolding check_modules
check_modules-passes is_module [] m h listed = absurd (ground arith)
check_modules-passes is_module (x ∷ rest) m h listed = elim (Bool-cases (m == x)) [
  | inl here ↦ let at_x : m ≡ x = ground arith in rw at_x (ground arith)
  | inr other ↦ check_modules-passes is_module rest m (ground arith) (ground arith)
]

has_duplicate-IsDistinct : (A : List ℕ) → has_duplicate A ≡ ok false → IsDistinct A
has_duplicate-IsDistinct A h = elim (has_duplicate_lem A) [
  | inl (empty, e) ↦ absurd (ground arith)
  | inr (inl (e, d)) ↦ d
  | inr (inr (e, d)) ↦ absurd (ground arith)
]

not-true : (b : Bool) → not b ≡ true → b ≡ false
not-true true h = absurd (cc)
not-true false h = refl

-- The unit n of a new token reads as n.
whole_unit : (n : ℕ) → n * 10 ^ 18 / 10 ^ 18 ≡ n
whole_unit n = omega arith

module _ ⦃ssm : SignedSafeMath⦄ ⦃sc : SafeCast⦄ ⦃erc20 : Erc20⦄ where
  -- A token that `create` may have made of its arguments, registered with the controller.
  pub record IsLaunched (controller : Controller) (address : ℕ) (components : List ℕ)
      (units : List ℤ) (modules : List ℕ) (manager : ℕ) (r : Created) : Type 0 where
    pub at_address : r.set_token ≡ address
    pub was_new : controller.is_set address ≡ false
    pub registered : r.controller ≡ record controller {
      is_set = update controller.is_set address true;
      sets = controller.sets ++ address ∷ [];
    }
    pub reaches : IsReachable r.token
    pub managed : (r.token.manager ≡ manager) × (manager ≢ 0)
    pub lists : r.token.components ≡ components
    pub awaits :
        (m : ℕ)
        → 0 < count m modules
        → (controller.is_module m ≡ true) × (r.token.module_states m ≡ pending)
    pub reads :
        (i c n : ℕ)
        → get_elem? components i ≡ some c
        → get_elem? units i ≡ some (pos n)
        → n * 10 ^ 18 < 2 ^ 255
        → (c ≢ 0) × (0 < n) × (get_default_position_real_unit r.token c ≡ ok (pos n))

  launched :
      (controller : Controller) (this address : ℕ) (components : List ℕ) (units : List ℤ)
      (modules : List ℕ) (manager : ℕ) (d : Controller)
      → has_duplicate components ≡ ok false
      → (manager == 0) ≡ false
      → check_components components units ≡ ok tt
      → check_modules controller.is_module modules ≡ ok tt
      → add_set controller this address ≡ ok d
      → IsLaunched controller address components units modules manager (record {
        controller = d;
        set_token = address;
        token = create components units modules manager;
      })
  unfolding create get_default_position_real_unit convert_virtual_to_real_unit
  launched controller this address components units modules manager d single someone cs ms added =
      let (_, _, fresh, after) = add_set_inversion controller this address d added in
      let distinct = has_duplicate-IsDistinct components single in
      record {
        at_address = refl;
        was_new = fresh;
        registered = after;
        reaches = created components units modules manager distinct (done _);
        managed = (refl, ground arith);
        lists = refl;
        awaits = λ m listed. (
          check_modules-passes controller.is_module modules m ms listed,
          make_pending-pending modules (λ _. none_state) m listed,
        );
        reads = λ i c n at_c at_n fits.
            let (some_address, positive) =
              check_components-passes components units i c (pos n) cs at_c at_n in
            let unit =
              set_units-units components units (λ _. no_position) i c (pos n) distinct at_c at_n in
            (
              some_address,
              ground arith,
              rw unit (ground (arith, conservative_precise_mul_pos n (10 ^ 18), whole_unit n)),
            );
      }

  -- When `create` succeeds, the token at the new address is one that its constructor made of distinct
  -- components, so that every invariant of reachable tokens holds of it; the controller has it
  -- registered, which it was not; its modules are enabled and pending, and each component's unit,
  -- where its product with the multiplier fits in an int256, reads as the unit given at its place.
  pub create_set_token-IsLaunched :
      (this : ℕ) (controller : Controller) (address : ℕ) (components : List ℕ) (units : List ℤ)
      (modules : List ℕ) (manager : ℕ) (r : Created)
      → create_set_token this controller address components units modules manager ≡ ok r
      → IsLaunched controller address components units modules manager r
  unfolding create_set_token
  create_set_token-IsLaunched this controller address components units modules manager r h =
      let (_, h1) =
        require-inversion (ltb 0 (length components)) "Must have at least 1 component" _ h in
      let (_, h2) =
        require-inversion (length components == length units)
          "Component and unit lengths must be the same" _ h1 in
      let (duplicate, e3, h3) = bind-inversion (has_duplicate components) _ h2 in
      let (single, h4) =
        require-inversion (not duplicate) "Components must not have a duplicate" _ h3 in
      let (_, h5) = require-inversion (ltb 0 (length modules)) "Must have at least 1 module" _ h4 in
      let (someone, h6) = require-inversion (not (manager == 0)) "Manager must not be empty" _ h5 in
      let (_, cs, h7) = bind-inversion (check_components components units) _ h6 in
      let (_, ms, h8) = bind-inversion (check_modules controller.is_module modules) _ h7 in
      let (d, added, h9) = bind-inversion (add_set controller this address) _ h8 in
      subst (IsLaunched controller address components units modules manager) (ok_injective h9) (
        launched controller this address components units modules manager d
          (e3 ∙ ap (λ b. ok b) (not-true duplicate single)) (not-true (manager == 0) someone) cs ms
          added)
