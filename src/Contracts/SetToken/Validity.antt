-- ===== src/Contracts/SetToken/Validity.antt =====
-- contracts/protocol/SetToken.sol: the arrays and the lock stay in step with the mappings.
use set_protocol_v2_contract.Common.{
  ℕ, Bool, true, false, List, [], ◌∷◌, ◌++◌, ok, ◌≡◌, ◌⊎◌, inl, inr, arith, ◌==◌, if◌then◌else◌,
  ◌≤◌, ◌+◌, Bool-cases, ap, ◌∙◌,
}
use set_protocol_v2_contract.Common.Lists.{count, count-append}
use set_protocol_v2_contract.Contracts.AddressArrayUtils.{remove_storage, contains}
use set_protocol_v2_contract.Contracts.AddressArrayUtils.Membership.{contains_iff}
use set_protocol_v2_contract.Contracts.AddressArrayUtils.Removal.{count-remove_storage}
use set_protocol_v2_contract.Contracts.Storage.{update}
use set_protocol_v2_contract.Contracts.SetToken.State.{
  SetToken, ModuleState, ComponentPosition, none_state, pending, initialized, is_initialized_state,
}
use set_protocol_v2_contract.Contracts.SetToken.Operations.{put_position}

abbrev pub IsDistinctArray : List ℕ → Type 0
IsDistinctArray A = (a : ℕ) → count a A ≤ 1

-- `modules` lists the initialized modules.
abbrev pub ListsInitialized : List ℕ → (ℕ → ModuleState) → Type 0
ListsInitialized A states = (a : ℕ) → count a A ≡ (if is_initialized_state (states a) then 1 else 0)

-- A lock is held by an initialized module, and no locker is left behind without one.
abbrev pub HoldsLock : Bool → ℕ → (ℕ → ModuleState) → Type 0
HoldsLock is_locked locker states =
    ((is_locked ≡ true) × (states locker ≡ initialized)) ⊎ ((is_locked ≡ false) × (locker ≡ 0))

pub record IsValid (t : SetToken) : Type 0 where
  pub lock : HoldsLock t.is_locked t.locker t.module_states
  pub modules : ListsInitialized t.modules t.module_states
  pub components : IsDistinctArray t.components
  pub externals : (c : ℕ) → IsDistinctArray (t.component_positions c).external_position_modules

count_absent : (A : List ℕ) (x : ℕ) → contains A x ≡ false → count x A ≡ 0
count_absent A x h = ground (arith, (contains_iff A x).1)

pub push-IsDistinctArray :
    (A : List ℕ) (x : ℕ) → contains A x ≡ false → IsDistinctArray A → IsDistinctArray (A ++ x ∷ [])
push-IsDistinctArray A x h d a = elim (Bool-cases (a == x)) [
  | inl same ↦
      let e : a ≡ x = ground arith in
      rw e (ground (arith, count-append x A (x ∷ []), count_absent A x h))
  | inr other ↦ ground (arith, count-append a A (x ∷ []), d a)
]

count-removed :
    (A : List ℕ) (x : ℕ) (B : List ℕ)
    → remove_storage A x ≡ ok B
    → (a : ℕ) → count a A ≡ count a B + (if a == x then 1 else 0)
count-removed A x B h a = elim (count-remove_storage A x) [
  | inl (absent, e) ↦ absurd (ground arith)
  | inr (C, e, counts) ↦
      let same : C ≡ B = ground arith in ground (arith, counts a, ap (count a) same)
]

pub remove-IsDistinctArray :
    (A : List ℕ) (x : ℕ) (B : List ℕ)
    → remove_storage A x ≡ ok B
    → IsDistinctArray A
    → IsDistinctArray B
remove-IsDistinctArray A x B h d a = ground (arith, count-removed A x B h a, d a)

-- A state change that keeps a module out of `initialized`, or leaves it there.
pub keep-ListsInitialized :
    (A : List ℕ) (states : ℕ → ModuleState) (x : ℕ) (s : ModuleState)
    → is_initialized_state (states x) ≡ is_initialized_state s
    → ListsInitialized A states
    → ListsInitialized A (update states x s)
keep-ListsInitialized A states x s same l a = elim (Bool-cases (a == x)) [
  | inl here ↦
      let e : a ≡ x = ground arith in
      let at_x : is_initialized_state (states a) ≡ is_initialized_state s =
        ap (λ b. is_initialized_state (states b)) e ∙ same in
      ground (arith, l a, at_x)
  | inr other ↦ ground (arith, l a)
]

pub push-ListsInitialized :
    (A : List ℕ) (states : ℕ → ModuleState) (x : ℕ)
    → states x ≡ pending
    → ListsInitialized A states
    → ListsInitialized (A ++ x ∷ []) (update states x initialized)
push-ListsInitialized A states x was l a = elim (Bool-cases (a == x)) [
  | inl here ↦
      let e : a ≡ x = ground arith in
      let none : count x A ≡ 0 = ground (arith, l x, ap is_initialized_state was) in
      rw e (ground (arith, count-append x A (x ∷ []), none))
  | inr other ↦ ground (arith, count-append a A (x ∷ []), l a)
]

pub remove-ListsInitialized :
    (A : List ℕ) (states : ℕ → ModuleState) (x : ℕ) (B : List ℕ)
    → remove_storage A x ≡ ok B
    → ListsInitialized A states
    → ListsInitialized B (update states x none_state)
remove-ListsInitialized A states x B h l a = elim (Bool-cases (a == x)) [
  | inl here ↦ ground (arith, count-removed A x B h a, l a)
  | inr other ↦ ground (arith, count-removed A x B h a, l a)
]

put-Externals :
    (positions : ℕ → ComponentPosition) (c : ℕ) (p : ComponentPosition)
    → IsDistinctArray p.external_position_modules
    → ((c' : ℕ) → IsDistinctArray (positions c').external_position_modules)
    → (c' : ℕ) → IsDistinctArray (update positions c p c').external_position_modules
put-Externals positions c p d all c' a = elim (Bool-cases (c' == c)) [
  | inl here ↦ rw here (d a)
  | inr other ↦ rw other (all c' a)
]

pub put_position-IsValid :
    (t : SetToken) (c : ℕ) (p : ComponentPosition)
    → IsDistinctArray p.external_position_modules
    → IsValid t
    → IsValid (put_position t c p)
put_position-IsValid t c p d v = record {
  lock = v.lock;
  modules = v.modules;
  components = v.components;
  externals = put-Externals t.component_positions c p d v.externals;
}
