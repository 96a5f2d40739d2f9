-- ===== src/Contracts/Controller/Enabling.antt =====
-- contracts/protocol/Controller.sol: when `initialize` succeeds, and what it enables and registers.
use set_protocol_v2_contract.Common.{
  ℕ, ◌<◌, ◌≡◌, ◌≢◌, refl, true, false, Bool, List, [], ◌∷◌, Result, ok, some, arith, ltb, zero, suc,
  ◌∙◌, subst, subst₂,
}
use set_protocol_v2_contract.Common.Lists.{count, length, get_elem?}
use set_protocol_v2_contract.Contracts.AddressArrayUtils.Membership.{IsDistinct}
use set_protocol_v2_contract.Contracts.Storage.{update}
use set_protocol_v2_contract.Contracts.Controller.{
  Controller, create, enable_all, enable_resources, initialize,
}
use set_protocol_v2_contract.Contracts.Controller.Initialization.{enable_all_lem}

abbrev pub HasNoZero : List ℕ → Type 0
HasNoZero A = (a : ℕ) → 0 < count a A → a ≢ 0

enable_all-succeeds :
    (A : List ℕ) (m : ℕ → Bool) → HasNoZero A → (m' : ℕ → Bool) × (enable_all A m ≡ ok m')
unfolding enable_all
enable_all-succeeds [] m nz = (m, refl)
enable_all-succeeds (x ∷ rest) m nz =
    let (m', e) = enable_all-succeeds rest (update m x true) (λ a listed. nz a (ground arith)) in
    let fine : x ≢ 0 = nz x (ground arith) in (m', ground arith)

-- The resource at each position is enabled, and stands under the ID at that position.
abbrev pub Registers : List ℕ → List ℕ → (ℕ → Bool) → (ℕ → ℕ) → Type 0
Registers A ids m by_id =
    (k a i : ℕ) → get_elem? A k ≡ some a → get_elem? ids k ≡ some i → (m a ≡ true) × (by_id i ≡ a)

extend-Registers :
    (A ids : List ℕ) (m : ℕ → Bool) (by_id : ℕ → ℕ) (x i : ℕ)
    → m x ≡ true
    → by_id i ≡ x
    → Registers A ids m by_id
    → Registers (x ∷ A) (i ∷ ids) m by_id
extend-Registers A ids m by_id x i on at_i later zero a j at_k id_k =
    let same : x ≡ a = cc in
    let same_id : i ≡ j = cc in
    (subst (λ y. m y ≡ true) same on, subst₂ (λ k y. by_id k ≡ y) same_id same at_i)
extend-Registers A ids m by_id x i on at_i later (suc k) a j at_k id_k = later k a j at_k id_k

record Enabled (A ids : List ℕ) (m m' : ℕ → Bool) (by_id by_id' : ℕ → ℕ) : Type 0 where
  registers : Registers A ids m' by_id'
  keeps : (a : ℕ) → m a ≡ true → m' a ≡ true
  others : (i : ℕ) → count i ids ≡ 0 → by_id' i ≡ by_id i

enable_resources-succeeds :
    (A ids : List ℕ) (m : ℕ → Bool) (by_id : ℕ → ℕ)
    → length A ≡ length ids
    → HasNoZero A
    → IsDistinct ids
    → ((i : ℕ) → 0 < count i ids → by_id i ≡ 0)
    → (maps : (ℕ → Bool) × (ℕ → ℕ)) × (enable_resources A ids m by_id ≡ ok maps)
      × Enabled A ids m maps.0 by_id maps.1
unfolding enable_resources
enable_resources-succeeds [] [] m by_id l nz d new = (
  (m, by_id),
  refl,
  record {
    registers = λ k a i at_k id_k. absurd (cc);
    keeps = λ a on. on;
    others = λ i none. refl;
  },
)
enable_resources-succeeds [] (i ∷ ids) m by_id l nz d new = absurd (omega (arith, l))
enable_resources-succeeds (x ∷ rest) [] m by_id l nz d new = absurd (omega (arith, l))
enable_resources-succeeds (x ∷ rest) (i ∷ ids) m by_id l nz d new =
    let (maps, e, later) =
      enable_resources-succeeds rest ids (update m x true) (update by_id i x) (omega (arith, l))
        (λ a listed. nz a (ground arith)) (λ a. ground (arith, d a))
        (λ j listed. ground (arith, new j, d j)) in
    let fine : x ≢ 0 = nz x (ground arith) in
    let free : by_id i ≡ 0 = new i (ground arith) in
    let once : count i ids ≡ 0 = ground (arith, d i) in
    let at_i : maps.1 i ≡ x = later.others i once ∙ ground arith in
    let on : maps.0 x ≡ true = later.keeps x (ground arith) in
    (
      maps,
      ground arith,
      record {
        registers = extend-Registers rest ids maps.0 maps.1 x i on at_i later.registers;
        keeps = λ a was. later.keeps a (ground arith);
        others = λ j none. later.others j (ground arith) ∙ ground arith;
      },
    )

abbrev pub IsOn : (ℕ → Bool) → List ℕ → Type 0
IsOn m A = (a : ℕ) → m a ≡ ltb 0 (count a A)

-- What the rest of the system reads.
pub record IsInitializedWith (c : Controller) (factories modules resources ids : List ℕ)
    : Type 0 where
  pub initialized : c.is_initialized ≡ true
  pub factories_enabled : IsOn c.is_factory factories
  pub modules_enabled : IsOn c.is_module modules
  pub resources_registered : Registers resources ids c.is_resource c.resource_id

module _ (only_owner : ℕ → Result (Unit {0})) where
  -- `initialize` of a new Controller by its owner succeeds for any arrays without a zero address,
  -- with as many resources as IDs and no ID twice. Then exactly the given factories and modules are
  -- enabled, and each resource is enabled and found under its ID.
  pub initialize-IsInitializedWith :
      (fee_recipient sender : ℕ) (factories modules resources ids : List ℕ)
      → only_owner sender ≡ ok tt
      → HasNoZero factories
      → HasNoZero modules
      → HasNoZero resources
      → length resources ≡ length ids
      → IsDistinct ids
      → (d : Controller) × (initialize only_owner
            (create fee_recipient)
            sender
            factories
            modules
            resources
            ids
          ≡ ok d)
        × IsInitializedWith d factories modules resources ids
  unfolding initialize create
  initialize-IsInitializedWith r sender f m g ids own nf nm ng l d =
      let none_yet : ℕ → Bool = λ _. false in
      let (is_factory, ef) = enable_all-succeeds f none_yet nf in
      let (is_module, em) = enable_all-succeeds m none_yet nm in
      let (maps, eg, enabled) =
        enable_resources-succeeds g ids none_yet (λ _. 0) l ng d (λ i listed. refl) in
      (
        record (create r) {
          factories = f;
          modules = m;
          resources = g;
          is_factory = is_factory;
          is_module = is_module;
          is_resource = maps.0;
          resource_id = maps.1;
          is_initialized = true;
        },
        ground arith,
        record {
          initialized = refl;
          factories_enabled = λ a. enable_all_lem f none_yet is_factory ef a ∙ ground arith;
          modules_enabled = λ a. enable_all_lem m none_yet is_module em a ∙ ground arith;
          resources_registered = enabled.registers;
        },
      )
