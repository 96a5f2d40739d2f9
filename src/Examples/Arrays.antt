-- ===== src/Examples/Arrays.antt =====
-- contracts/lib/AddressArrayUtils.sol at short arrays.
use set_protocol_v2_contract.Common.{
  ℕ, ◌+◌, ◌≡◌, ◌⊎◌, true, false, List, [], ◌∷◌, ok, err, reason, ◌==◌, if◌then◌else◌,
}
use set_protocol_v2_contract.Common.Lists.{count}
use set_protocol_v2_contract.Contracts.AddressArrayUtils.{has_duplicate, remove, remove_storage}
use set_protocol_v2_contract.Contracts.AddressArrayUtils.Membership.{has_duplicate_lem, IsDistinct}
use set_protocol_v2_contract.Contracts.AddressArrayUtils.Removal.{remove-remove_storage}

abbrev three : List ℕ
three = 4 ∷ 5 ∷ 4 ∷ []

has_duplicate_lem_example :
    ((three ≡ []) × (has_duplicate three ≡ err (reason "A is empty")))
    ⊎ ((has_duplicate three ≡ ok false) × IsDistinct three)
    ⊎ ((has_duplicate three ≡ ok true) × (¬ IsDistinct three))
has_duplicate_lem_example = has_duplicate_lem three

remove-remove_storage_example :
    ((count 4 three ≡ 0)
      × (remove three 4 ≡ err (reason "Address not in array."))
      × (remove_storage three 4 ≡ err (reason "Address not in array.")))
    ⊎ ((B : List ℕ) × (C : List ℕ) × (remove three 4 ≡ ok B)
        × (remove_storage three 4 ≡ ok C)
        × ((b : ℕ)
            → (count b B ≡ count b C) × (count b three ≡ count b B + (if b == 4 then 1 else 0))))
remove-remove_storage_example = remove-remove_storage three 4
