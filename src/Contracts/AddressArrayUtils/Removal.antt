-- ===== src/Contracts/AddressArrayUtils/Removal.antt =====
-- contracts/lib/AddressArrayUtils.sol: the two removals, which keep the other addresses.
use set_protocol_v2_contract.Common.{
  sym, ap, ◌∙◌, inl, inr, Bool-cases, ℕ, zero, suc, ◌+◌, ◌-◌, ◌≡◌, refl, ◌⊎◌, true, some, List, [],
  ◌∷◌, ◌++◌, ok, err, arith, if◌then◌else◌, ltb, ◌==◌, reason, ◌≢◌,
}
use set_protocol_v2_contract.Common.Lists.{length, get_elem?, count, set, count-set, take, drop}
use set_protocol_v2_contract.Contracts.AddressArrayUtils.{
  index_of, remove, pop, remove_storage, drop_last, at,
}
use set_protocol_v2_contract.Contracts.AddressArrayUtils.Membership.{index_of-cases}

suc_sub_one : (n : ℕ) → suc n - 1 ≡ n
suc_sub_one n = omega arith

-- The entry that `A.pop()` drops.
abbrev final_entry : ℕ → List ℕ → ℕ
final_entry x [] = x
final_entry x (y ∷ rest) = final_entry y rest

get_elem?-final :
    (x : ℕ) (rest : List ℕ) → get_elem? (x ∷ rest) (length rest) ≡ some (final_entry x rest)
get_elem?-final x [] = refl
get_elem?-final x (y ∷ rest) = get_elem?-final y rest

count-drop_last :
    (a x : ℕ) (rest : List ℕ)
    → count a (drop_last (x ∷ rest)) + (if a == final_entry x rest then 1 else 0)
      ≡ count a (x ∷ rest)
unfolding drop_last
count-drop_last a x [] = ground arith
count-drop_last a x (y ∷ rest) = ground (arith, count-drop_last a y rest)

get_elem?-set_ne : (A : List ℕ) (i j v : ℕ) → i ≢ j → get_elem? (set A i v) j ≡ get_elem? A j
get_elem?-set_ne [] i j v h = refl
get_elem?-set_ne (x ∷ rest) zero zero v h = absurd (h refl)
get_elem?-set_ne (x ∷ rest) zero (suc j) v h = refl
get_elem?-set_ne (x ∷ rest) (suc i) zero v h = refl
get_elem?-set_ne (x ∷ rest) (suc i) (suc j) v h = get_elem?-set_ne rest i j v (ground arith)

length-set : (A : List ℕ) (i v : ℕ) → length (set A i v) ≡ length A
length-set [] i v = refl
length-set (x ∷ rest) zero v = refl
length-set (x ∷ rest) (suc i) v = omega (arith, length-set rest i v)

-- A write at another position leaves the final entry, and one at the position replaces it.
final-set :
    (x : ℕ) (rest : List ℕ) (i v : ℕ)
    → i ≢ length rest
    → get_elem? (set (x ∷ rest) i v) (length rest) ≡ some (final_entry x rest)
final-set x rest i v h = get_elem?-set_ne (x ∷ rest) i (length rest) v h ∙ get_elem?-final x rest

-- Dropping the last entry of the array in which the found address was overwritten.
count-overwrite :
    (b : ℕ) (A : List ℕ) (l : ℕ)
    → get_elem? A (length A - 1) ≡ some l
    → count b (drop_last A) + (if b == l then 1 else 0) ≡ count b A
count-overwrite b [] l h = cc
count-overwrite b (x ∷ rest) l h =
    let e : some l ≡ some (final_entry x rest) =
      sym h ∙ ap (get_elem? (x ∷ rest)) (suc_sub_one (length rest)) ∙ get_elem?-final x rest in
    ground (arith, count-drop_last b x rest)

found_case :
    (A : List ℕ) (a j : ℕ)
    → index_of A a ≡ (j, true)
    → get_elem? A j ≡ some a
    → (B : List ℕ) × (remove_storage A a ≡ ok B)
      × ((b : ℕ) → count b A ≡ count b B + (if b == a then 1 else 0))
unfolding remove_storage
found_case [] a j found at_j = cc
found_case (x ∷ rest) a j found at_j = elim (Bool-cases (j == (suc (length rest) - 1))) [
  | inl final ↦
      let e : j ≡ suc (length rest) - 1 = ground arith in
      (
        drop_last (x ∷ rest),
        rw (found, remove_storage) (rw final),
        λ b.
            ground
              (arith, count-overwrite b (x ∷ rest) a (ap (get_elem? (x ∷ rest)) (sym e) ∙ at_j)),
      )
  | inr inner ↦
      let l = final_entry x rest in
      let A' = set (x ∷ rest) j l in
      let len : length A' - 1 ≡ length rest = omega (arith, length-set (x ∷ rest) j l) in
      let j_ne : j ≢ length rest = λ e. ground arith in
      let last_there : get_elem? (x ∷ rest) (suc (length rest) - 1) ≡ some l =
        ap (get_elem? (x ∷ rest)) (suc_sub_one (length rest)) ∙ get_elem?-final x rest in
      let last_kept : get_elem? A' (length A' - 1) ≡ some l =
        ap (get_elem? A') len ∙ final-set x rest j l j_ne in
      (
        drop_last A',
        rw (found, remove_storage) (rw inner (rw (last_there, at))),
        λ b. omega (arith, count-set b (x ∷ rest) j l at_j, count-overwrite b A' l last_kept),
      )
]

-- `removeStorage` reverts where the address does not stand in the array; otherwise it takes out one
-- of its entries and keeps every other address as often, though not in its place.
pub count-remove_storage :
    (A : List ℕ) (a : ℕ)
    → ((count a A ≡ 0) × (remove_storage A a ≡ err (reason "Address not in array.")))
      ⊎ ((B : List ℕ) × (remove_storage A a ≡ ok B)
          × ((b : ℕ) → count b A ≡ count b B + (if b == a then 1 else 0)))
unfolding remove_storage
count-remove_storage A a = elim (index_of-cases A a) [
  | inl (missing, absent) ↦ inl (absent, rw (missing, remove_storage))
  | inr (j, found, at_j, present) ↦ inr (found_case A a j found at_j)
]

count-take-drop :
    (b : ℕ) (A : List ℕ) (j a : ℕ)
    → get_elem? A j ≡ some a
    → count b A ≡ count b (take j A ++ drop (suc j) A) + (if b == a then 1 else 0)
count-take-drop b [] j a h = cc
count-take-drop b (x ∷ rest) zero a h = ground arith
count-take-drop b (x ∷ rest) (suc j) a h = ground (arith, count-take-drop b rest j a h)

lt_length : (A : List ℕ) (j : ℕ) {a : ℕ} → get_elem? A j ≡ some a → ltb j (length A) ≡ true
lt_length [] j h = cc
lt_length (x ∷ rest) zero h = ground arith
lt_length (x ∷ rest) (suc j) h = ground (arith, lt_length rest j h)

-- `remove` on memory and `removeStorage` on storage succeed on the same arrays and fail with the
-- same message; their results hold the same addresses as often, one less of the removed one.
pub remove-remove_storage :
    (A : List ℕ) (a : ℕ)
    → ((count a A ≡ 0)
        × (remove A a ≡ err (reason "Address not in array."))
        × (remove_storage A a ≡ err (reason "Address not in array.")))
      ⊎ ((B : List ℕ) × (C : List ℕ) × (remove A a ≡ ok B)
          × (remove_storage A a ≡ ok C)
          × ((b : ℕ)
              → (count b B ≡ count b C) × (count b A ≡ count b B + (if b == a then 1 else 0))))
unfolding remove remove_storage
remove-remove_storage A a = elim (index_of-cases A a) [
  | inl (missing, absent) ↦ inl (absent, rw (missing, remove), rw (missing, remove_storage))
  | inr (j, found, at_j, present) ↦
      let (C, removes, counts) = found_case A a j found at_j in
      inr (
        take j A ++ drop (suc j) A,
        C,
        rw (found, remove) (unfold pop in rw (lt_length A j at_j) (rw (at_j, at))),
        removes,
        λ b. (ground (arith, count-take-drop b A j a at_j, counts b), count-take-drop b A j a at_j),
      )
]
