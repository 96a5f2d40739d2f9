-- ===== src/Contracts/AddressArrayUtils/Membership.antt =====
-- contracts/lib/AddressArrayUtils.sol: what `indexOf`, `contains` and `hasDuplicate` find.
use set_protocol_v2_contract.Common.{
  inl, inr, Bool-cases, ℕ, suc, ◌+◌, ◌-◌, ◌^◌, ◌≤◌, ◌<◌, ◌≡◌, refl, ◌↔◌, ◌⊎◌, true, false, some,
  List, [], ◌∷◌, ok, err, arith, ◌==◌, reason,
}
use set_protocol_v2_contract.Common.Lists.{get_elem?, count}
use set_protocol_v2_contract.Contracts.AddressArrayUtils.{
  index_loop, index_of, contains, occurs_in, duplicate_loop, has_duplicate,
}

index_loop_lem :
    (i : ℕ) (A : List ℕ) (a : ℕ)
    → ((index_loop i A a ≡ (2 ^ 256 - 1, false)) × (count a A ≡ 0))
      ⊎ ((j : ℕ) × (index_loop i A a ≡ (i + j, true)) × (get_elem? A j ≡ some a) × (0 < count a A))
unfolding index_loop
index_loop_lem i [] a = inl (refl, refl)
index_loop_lem i (x ∷ rest) a = elim (index_loop_lem (suc i) rest a) [
  | inl (missing, absent) ↦ elim (Bool-cases (x == a)) [
    | inl hit ↦ inr (0, ground arith, ground arith, ground arith)
    | inr other ↦ inl (ground arith, ground arith)
  ]
  | inr (j, found, at_j, present) ↦ elim (Bool-cases (x == a)) [
    | inl hit ↦ inr (0, ground arith, ground arith, ground arith)
    | inr other ↦ inr (suc j, ground arith, at_j, ground arith)
  ]
]

-- `indexOf` returns a position at which the address stands, or says that it stands nowhere.
pub index_of-cases :
    (A : List ℕ) (a : ℕ)
    → ((index_of A a ≡ (2 ^ 256 - 1, false)) × (count a A ≡ 0))
      ⊎ ((j : ℕ) × (index_of A a ≡ (j, true)) × (get_elem? A j ≡ some a) × (0 < count a A))
unfolding index_of
index_of-cases A a = elim (index_loop_lem 0 A a) [
  | inl (missing, absent) ↦ inl (missing, absent)
  | inr (j, found, at_j, present) ↦ inr (j, ground arith, at_j, present)
]

-- `contains` holds exactly of the addresses that stand in the array.
pub contains_iff : (A : List ℕ) (a : ℕ) → (contains A a ≡ true) ↔ (0 < count a A)
unfolding contains
contains_iff A a = elim (index_of-cases A a) [
  | inl (missing, absent) ↦ (ground arith, ground arith)
  | inr (j, found, at_j, present) ↦ (ground arith, ground arith)
]

occurs_in_iff : (a : ℕ) (A : List ℕ) → (occurs_in a A ≡ true) ↔ (0 < count a A)
unfolding occurs_in
occurs_in_iff a [] = (ground arith, ground arith)
occurs_in_iff a (x ∷ rest) =
    (ground (arith, occurs_in_iff a rest), ground (arith, occurs_in_iff a rest))

-- No address stands twice.
abbrev pub IsDistinct : List ℕ → Type 0
IsDistinct A = (a : ℕ) → count a A ≤ 1

duplicate_loop-false : (A : List ℕ) → duplicate_loop A ≡ false → IsDistinct A
unfolding duplicate_loop
duplicate_loop-false [] h a = omega arith
duplicate_loop-false (x ∷ rest) h a = elim (Bool-cases (occurs_in x rest)) [
  | inl twice ↦ ground arith
  | inr once ↦ ground (arith, duplicate_loop-false rest (ground arith) a, occurs_in_iff x rest)
]

duplicate_loop-true : (A : List ℕ) → duplicate_loop A ≡ true → ¬ IsDistinct A
unfolding duplicate_loop
duplicate_loop-true [] h d = cc
duplicate_loop-true (x ∷ rest) h d = elim (Bool-cases (occurs_in x rest)) [
  | inl twice ↦ ground (arith, d x, (occurs_in_iff x rest).0 twice)
  | inr once ↦ duplicate_loop-true rest (ground arith) (λ a. ground (arith, d a))
]

-- `hasDuplicate` reverts on the empty array; otherwise it is false exactly of the arrays in which
-- no address stands twice.
pub has_duplicate_lem :
    (A : List ℕ)
    → ((A ≡ []) × (has_duplicate A ≡ err (reason "A is empty")))
      ⊎ ((has_duplicate A ≡ ok false) × IsDistinct A)
      ⊎ ((has_duplicate A ≡ ok true) × (¬ IsDistinct A))
unfolding has_duplicate
has_duplicate_lem [] = inl (refl, refl)
has_duplicate_lem (x ∷ rest) = elim (Bool-cases (duplicate_loop (x ∷ rest))) [
  | inl twice ↦ inr (inr (ground arith, duplicate_loop-true (x ∷ rest) twice))
  | inr once ↦ inr (inl (ground arith, duplicate_loop-false (x ∷ rest) once))
]
