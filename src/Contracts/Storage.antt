-- ===== src/Contracts/Storage.antt =====
-- Solidity mappings as functions, and an address array that is kept beside a mapping to bool.
use set_protocol_v2_contract.Common.{
  ap, ◌∙◌, ℕ, ◌+◌, ◌≡◌, inl, inr, Bool, true, false, List, [], ◌∷◌, ◌++◌, ok, arith, if◌then◌else◌,
  ◌==◌, Bool-cases,
}
use set_protocol_v2_contract.Common.Lists.{count, count-append}
use set_protocol_v2_contract.Contracts.AddressArrayUtils.{remove}
use set_protocol_v2_contract.Contracts.AddressArrayUtils.Removal.{remove-remove_storage}

-- `m[k] = v`
abbrev pub update {ℓ} : {V : Type ℓ} → (ℕ → V) → ℕ → V → ℕ → V
update m k v j = if j == k then v else m j

-- The array lists each address of the mapping once, and no other.
abbrev pub Lists : List ℕ → (ℕ → Bool) → Type 0
Lists A m = (a : ℕ) → count a A ≡ (if m a then 1 else 0)

pub push-Lists :
    (A : List ℕ) (m : ℕ → Bool) (x : ℕ)
    → m x ≡ false
    → Lists A m
    → Lists (A ++ x ∷ []) (update m x true)
push-Lists A m x new h a = elim (Bool-cases (a == x)) [
  | inl same ↦ let e : a ≡ x = ground arith in rw e (ground (arith, count-append x A (x ∷ []), h x))
  | inr other ↦ ground (arith, count-append a A (x ∷ []), h a)
]

-- Taking a listed address out of both succeeds, and keeps them in step.
pub remove-Lists :
    (A : List ℕ) (m : ℕ → Bool) (x : ℕ)
    → m x ≡ true
    → Lists A m
    → (B : List ℕ) × (remove A x ≡ ok B) × Lists B (update m x false)
remove-Lists A m x old h = elim (remove-remove_storage A x) [
  | inl (absent, removes, stores) ↦ absurd (ground (arith, h x))
  | inr (B, C, removes, stores, counts) ↦ (B, removes, λ a. still B a (counts a).1)
]
  where
    still :
        (B : List ℕ) (a : ℕ)
        → count a A ≡ count a B + (if a == x then 1 else 0)
        → count a B ≡ (if update m x false a then 1 else 0)
    still B a e = elim (Bool-cases (a == x)) [
      | inl same ↦
          let at_x : a ≡ x = ground arith in
          let listed : m a ≡ true = ap m at_x ∙ old in ground (arith, h a, listed)
      | inr other ↦ ground (arith, h a)
    ]
