-- ===== src/Inventory/Ids.antt =====
-- The ids of the inventory's items, active and deleted.
use mash_backend.Prelude.{
  ℕ, ◌<◌, ◌≡◌, ◌≢◌, refl, inl, inr, none, some, List, [], ◌∷◌, ◌++◌, arith, if◌then◌else◌, ◌==◌,
  nat_eq, find, update_first, All, get, Bool-cases,
}
use mash_backend.Inventory.{InventoryItem, Service, has_id, remove_first}

-- All items have different ids.
abbrev pub Distinct : List InventoryItem → Type 0
Distinct [] = Unit
Distinct (i ∷ is) = All (λ k. k.id ≢ i.id) is × Distinct is

-- Ids are below the counter, no two active items share one, and no deleted item shares one with an
-- active item.
pub record IsValid (s : Service) : Type 0 where
  pub below : All (λ i. i.id < s.id_counter) s.inventory
  pub distinct : Distinct s.inventory
  pub gone :
      (id : ℕ) (i : InventoryItem)
      → get id s.deleted ≡ some i
      → (i.id ≡ id) × (id < s.id_counter) × (find (has_id id) s.inventory ≡ none)

pub All-snoc :
    (P : InventoryItem → Type 0) (is : List InventoryItem) (i : InventoryItem)
    → All P is
    → P i
    → All P (is ++ (i ∷ []))
All-snoc P [] i h p = (p, tt)
All-snoc P (j ∷ is) i h p = (h.0, All-snoc P is i h.1 p)

pub Distinct-snoc :
    (is : List InventoryItem) (i : InventoryItem)
    → Distinct is
    → find (has_id i.id) is ≡ none
    → Distinct (is ++ (i ∷ []))
Distinct-snoc [] i d f = (tt, tt)
Distinct-snoc (j ∷ is) i d f =
    (All-snoc (λ k. k.id ≢ j.id) is i d.0 (ground arith), Distinct-snoc is i d.1 (ground arith))

pub find-snoc :
    (n : ℕ) (is : List InventoryItem) (i : InventoryItem)
    → find (has_id n) is ≡ none
    → find (has_id n) (is ++ (i ∷ [])) ≡ (if i.id == n then some i else none)
find-snoc n [] i f = refl
find-snoc n (j ∷ is) i f = ground (arith, find-snoc n is i)

pub find-snoc_other :
    (n : ℕ) (is : List InventoryItem) (i : InventoryItem)
    → i.id ≢ n
    → find (has_id n) (is ++ (i ∷ [])) ≡ find (has_id n) is
find-snoc_other n [] i f = ground arith
find-snoc_other n (j ∷ is) i f = ground (arith, find-snoc_other n is i f)

pub find_below :
    (n : ℕ) (is : List InventoryItem) → All (λ i. i.id < n) is → find (has_id n) is ≡ none
find_below n [] h = refl
find_below n (i ∷ is) h = ground (arith, find_below n is h.1)

pub find-some-id :
    (n : ℕ) (is : List InventoryItem) (i : InventoryItem) → find (has_id n) is ≡ some i → i.id ≡ n
find-some-id n [] i h = cc
find-some-id n (j ∷ is) i h = ground (arith, find-some-id n is i)

find_absent : (n : ℕ) (is : List InventoryItem) → All (λ k. k.id ≢ n) is → find (has_id n) is ≡ none
find_absent n [] h = refl
find_absent n (i ∷ is) h = ground (arith, find_absent n is h.1)

pub find-remove_first :
    (n id : ℕ) (is : List InventoryItem)
    → Distinct is
    → find (has_id n) (remove_first id is) ≡ (if id == n then none else find (has_id n) is)
unfolding remove_first
find-remove_first n id [] d = ground arith
find-remove_first n id (i ∷ is) d =
    ground (arith, find-remove_first n id is d.1, find_absent i.id is d.0)

pub All-remove_first :
    (P : InventoryItem → Type 0) (id : ℕ) (is : List InventoryItem)
    → All P is
    → All P (remove_first id is)
unfolding remove_first
All-remove_first P id [] h = tt
All-remove_first P id (i ∷ is) h = elim (Bool-cases (i.id == id)) [
  | inl e ↦ rw e h.1
  | inr e ↦ rw e (h.0, All-remove_first P id is h.1)
]

pub Distinct-remove_first :
    (id : ℕ) (is : List InventoryItem) → Distinct is → Distinct (remove_first id is)
unfolding remove_first
Distinct-remove_first id [] d = tt
Distinct-remove_first id (i ∷ is) d = elim (Bool-cases (i.id == id)) [
  | inl e ↦ rw e d.1
  | inr e ↦ rw e (All-remove_first (λ k. k.id ≢ i.id) id is d.0, Distinct-remove_first id is d.1)
]

module _ (f : InventoryItem → InventoryItem) (same : (i : InventoryItem) → (f i).id ≡ i.id) where
  pub All-update_first :
      (P : ℕ → Type 0) (id : ℕ) (is : List InventoryItem)
      → All (λ i. P i.id) is
      → All (λ i. P i.id) (update_first (has_id id) f is)
  All-update_first P id [] h = tt
  All-update_first P id (i ∷ is) h = elim (Bool-cases (i.id == id)) [
    | inl e ↦ rw e (rw (same i) h.0, h.1)
    | inr e ↦ rw e (h.0, All-update_first P id is h.1)
  ]

  pub Distinct-update_first :
      (id : ℕ) (is : List InventoryItem) → Distinct is → Distinct (update_first (has_id id) f is)
  Distinct-update_first id [] d = tt
  Distinct-update_first id (i ∷ is) d = elim (Bool-cases (i.id == id)) [
    | inl e ↦ rw (e, same i) d
    | inr e ↦ rw e (All-update_first (λ n. n ≢ i.id) id is d.0, Distinct-update_first id is d.1)
  ]

  pub find-none-update_first :
      (n id : ℕ) (is : List InventoryItem)
      → find (has_id n) is ≡ none
      → find (has_id n) (update_first (has_id id) f is) ≡ none
  find-none-update_first n id [] h = refl
  find-none-update_first n id (i ∷ is) h = ground (arith, same i, find-none-update_first n id is)
