-- ===== src/Contracts/NavIssuance/ReserveAssets.antt =====
-- contracts/protocol/modules/NAVIssuanceModule.sol: what its functions do to the two arrays of the settings.
use set_protocol_v2_contract.Common.{
  ℕ, zero, suc, ◌+◌, ◌≤◌, ◌≡◌, ◌⊎◌, Bool, false, true, List, [], ◌∷◌, ok, ap, ◌∙◌, arith,
  Bool-cases, ◌++◌, ◌==◌, inl, inr, if◌then◌else◌,
}
use set_protocol_v2_contract.Common.Lists.{count, set, count-append}
use set_protocol_v2_contract.Contracts.Storage.{update}
use set_protocol_v2_contract.Contracts.AddressArrayUtils.{at, remove}
use set_protocol_v2_contract.Contracts.AddressArrayUtils.Removal.{remove-remove_storage}
use set_protocol_v2_contract.Contracts.NavIssuance.{mark_reserves}

at-set : (l : List ℕ) (i k v n : ℕ) → at (set l i v) k ≡ ok n → (n ≡ v) ⊎ (at l k ≡ ok n)
at-set [] i k v n h = inr h
at-set (x ∷ l) zero zero v n h = inl (ground arith)
at-set (x ∷ l) zero (suc k) v n h = inr h
at-set (x ∷ l) (suc i) zero v n h = inr h
at-set (x ∷ l) (suc i) (suc k) v n h = at-set l i k v n h

pub mark_reserves-count :
    (assets : List ℕ) (m m' : ℕ → Bool)
    → mark_reserves assets m ≡ ok m'
    → (a : ℕ) → count a assets + (if m a then 1 else 0) ≡ (if m' a then 1 else 0)
unfolding mark_reserves
mark_reserves-count [] m m' h a = ground arith
mark_reserves-count (x ∷ rest) m m' h a = elim (Bool-cases (m x)) [
  | inl old ↦ absurd (ground arith)
  | inr new ↦
      let later = mark_reserves-count rest (update m x true) m' (ground arith) a in
      elim (Bool-cases (a == x)) [
        | inl same ↦
            let e : a ≡ x = ground arith in
            let off : m a ≡ false = ap m e ∙ new in ground (arith, later, off)
        | inr other ↦ ground (arith, later)
      ]
]

pub push-listed :
    (A : List ℕ) (m : ℕ → Bool) (x : ℕ)
    → m x ≡ false
    → ((a : ℕ) → count a A ≤ (if m a then 1 else 0))
    → (a : ℕ) → count a (A ++ x ∷ []) ≤ (if update m x true a then 1 else 0)
push-listed A m x new h a = elim (Bool-cases (a == x)) [
  | inl same ↦ let e : a ≡ x = ground arith in rw e (ground (arith, count-append x A (x ∷ []), h x))
  | inr other ↦ ground (arith, count-append a A (x ∷ []), h a)
]

pub remove-listed :
    (A B : List ℕ) (m : ℕ → Bool) (x : ℕ)
    → remove A x ≡ ok B
    → ((a : ℕ) → count a A ≤ (if m a then 1 else 0))
    → (a : ℕ) → count a B ≤ (if update m x false a then 1 else 0)
remove-listed A B m x e h a = elim (remove-remove_storage A x) [
  | inl (absent, removes, stores) ↦ absurd (ground arith)
  | inr (B', C, removes, stores, counts) ↦
      let same_array : B ≡ B' = ground arith in
      let taken : count a A ≡ count a B + (if a == x then 1 else 0) = rw same_array (counts a).1 in
      elim (Bool-cases (a == x)) [
        | inl same ↦ elim (Bool-cases (m a)) [
          | inl on ↦ ground (arith, h a, taken)
          | inr off ↦ ground (arith, h a, taken)
        ]
        | inr other ↦ ground (arith, h a, taken)
      ]
]

pub set-bound :
    (l : List ℕ) (i k v n bound : ℕ)
    → v ≤ bound
    → ((n : ℕ) → at l k ≡ ok n → n ≤ bound)
    → at (set l i v) k ≡ ok n
    → n ≤ bound
set-bound l i k v n bound fits h e = elim (at-set l i k v n e) [
  | inl new ↦ rw new fits
  | inr old ↦ h n old
]
