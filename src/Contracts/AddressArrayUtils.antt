-- ===== src/Contracts/AddressArrayUtils.antt =====
-- contracts/lib/AddressArrayUtils.sol: arrays of addresses. An address is a number.
pub mod Membership
pub mod Removal
use set_protocol_v2_contract.Common.{
  ℕ, zero, suc, ◌+◌, ◌-◌, ◌^◌, Bool, true, false, not, Option, none, some, List, [], ◌∷◌, ◌++◌,
  Result, ok, err, reason, fault, ◌>>=◌, ◌>>◌, require, if◌then◌else◌, ltb, ◌==◌,
}
use set_protocol_v2_contract.Common.Lists.{length, get_elem?, set, take, drop}

-- `A[i]`, which reverts out of range.
abbrev pub at : List ℕ → ℕ → Result ℕ
at A i = elim (get_elem? A i) [ none ↦ err fault | some a ↦ ok a ]

-- The loop of `indexOf` from position i on, over the entries that are left.
unfoldable pub index_loop : ℕ → List ℕ → ℕ → ℕ × Bool
index_loop i [] a = (2 ^ 256 - 1, false)
index_loop i (x ∷ rest) a =
    let later = index_loop (suc i) rest a in if x == a then (i, true) else later

unfoldable pub index_of : List ℕ → ℕ → ℕ × Bool
unfolding index_loop
index_of A a = index_loop 0 A a

unfoldable pub contains : List ℕ → ℕ → Bool
contains A a = (index_of A a).1

-- The inner loop of `hasDuplicate`: whether `current` stands among the later entries.
unfoldable pub occurs_in : ℕ → List ℕ → Bool
occurs_in current [] = false
occurs_in current (x ∷ rest) =
    let later = occurs_in current rest in if current == x then true else later

-- The outer loop. At the last entry the inner loop finds nothing.
unfoldable pub duplicate_loop : List ℕ → Bool
unfolding occurs_in
duplicate_loop [] = false
duplicate_loop (x ∷ rest) =
    let later = duplicate_loop rest in if occurs_in x rest then true else later

unfoldable pub has_duplicate : List ℕ → Result Bool
unfolding duplicate_loop
has_duplicate A = do require (ltb 0 (length A)) "A is empty"; ok (duplicate_loop A)

-- The two loops copy the entries before and behind the index.
unfoldable pub pop : List ℕ → ℕ → Result (List ℕ × ℕ)
pop A index = do
  require (ltb index (length A)) "Index must be < A length"
  a ← at A index
  ok (take index A ++ drop (suc index) A, a)

unfoldable pub remove : List ℕ → ℕ → Result (List ℕ)
remove A a =
    let (index, is_in) = index_of A a in
    if not is_in then err (reason "Address not in array.") else (do r ← pop A index; ok r.0)

-- `A.pop()` of Solidity, on an array that is not empty.
unfoldable pub drop_last : List ℕ → List ℕ
drop_last [] = []
drop_last (x ∷ []) = []
drop_last (x ∷ y ∷ rest) = x ∷ drop_last (y ∷ rest)

unfoldable pub remove_storage : List ℕ → ℕ → Result (List ℕ)
remove_storage A a =
    let (index, is_in) = index_of A a in
    let last_index = length A - 1 in
    if not is_in
    then err (reason "Address not in array.")
    else if index == last_index
    then ok (drop_last A)
    else (do last ← at A last_index; ok (drop_last (set A index last)))

unfoldable pub extend : List ℕ → List ℕ → List ℕ
extend A B = A ++ B
