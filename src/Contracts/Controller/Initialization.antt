-- ===== src/Contracts/Controller/Initialization.antt =====
-- contracts/protocol/Controller.sol: the loops of `initialize`.
use set_protocol_v2_contract.Common.{
  subst₂, ltb, ap, sym, ok_injective, subst, ℕ, ◌<◌, ◌≡◌, ◌≢◌, Bool, true, false, List, [], ◌∷◌, ok,
  arith, if◌then◌else◌, ◌==◌, Bool-cases, inl, inr,
}
use set_protocol_v2_contract.Common.Lists.{length, count}
use set_protocol_v2_contract.Contracts.AddressArrayUtils.Membership.{IsDistinct}
use set_protocol_v2_contract.Contracts.Storage.{update}
use set_protocol_v2_contract.Contracts.Controller.{enable_all, enable_resources}

abbrev pub Resolved : (ℕ → Bool) → (ℕ → ℕ) → Type 0
Resolved m by_id = (i : ℕ) → by_id i ≢ 0 → m (by_id i) ≡ true

abbrev pub Unique : (ℕ → ℕ) → Type 0
Unique by_id = (i j : ℕ) → by_id i ≢ 0 → by_id i ≡ by_id j → i ≡ j

-- The loops of `initialize` enable exactly the addresses of the arrays.
pub enable_all_lem :
    (A : List ℕ) (m m' : ℕ → Bool)
    → enable_all A m ≡ ok m'
    → (a : ℕ) → m' a ≡ (if ltb 0 (count a A) then true else m a)
unfolding enable_all
enable_all_lem [] m m' h a = ap (λ (f : ℕ → Bool). f a) (sym (ok_injective h))
enable_all_lem (x ∷ rest) m m' h a = elim (Bool-cases (x == 0)) [
  | inl zero_address ↦ absurd (ground arith)
  | inr fine ↦ ground (arith, enable_all_lem rest (update m x true) m' (ground arith) a)
]

pub Resolved-update :
    (m : ℕ → Bool) (by_id : ℕ → ℕ) (i a : ℕ)
    → Resolved m by_id
    → Resolved (update m a true) (update by_id i a)
Resolved-update m by_id i a h j ne = ground (arith, h j)

pub Unique-update :
    (m : ℕ → Bool) (by_id : ℕ → ℕ) (i a : ℕ)
    → m a ≡ false
    → Resolved m by_id
    → Unique by_id
    → Unique (update by_id i a)
Unique-update m by_id i a new h u j k ne e = ground (arith, h j, h k, u j k)

pub enable_resources_lem :
    (A ids : List ℕ) (m m' : ℕ → Bool) (by_id by_id' : ℕ → ℕ)
    → enable_resources A ids m by_id ≡ ok (m', by_id')
    → length A ≡ length ids
    → IsDistinct A
    → ((a : ℕ) → 0 < count a A → m a ≡ false)
    → Resolved m by_id
    → Unique by_id
    → ((a : ℕ) → m' a ≡ (if ltb 0 (count a A) then true else m a))
      × Resolved m' by_id'
      × Unique by_id'
unfolding enable_resources
enable_resources_lem [] ids m m' by_id by_id' h l d new r u =
    let same : (m ≡ m') × (by_id ≡ by_id') = ground arith in
    (
      λ a. ap (λ (f : ℕ → Bool). f a) (sym same.0),
      subst₂ Resolved same.0 same.1 r,
      subst Unique same.1 u,
    )
enable_resources_lem (x ∷ rest) [] m m' by_id by_id' h l d new r u = absurd (omega arith)
enable_resources_lem (x ∷ rest) (i ∷ ids) m m' by_id by_id' h l d new r u =
    let (maps, resolved, unique) =
      enable_resources_lem rest ids (update m x true) m' (update by_id i x) by_id' (ground arith)
        (omega arith) (λ a. ground (arith, d a)) (λ a present. ground (arith, d x, d a, new a))
        (Resolved-update m by_id i x r) (Unique-update m by_id i x (new x (ground arith)) r u) in
    (λ a. ground (arith, maps a), resolved, unique)
