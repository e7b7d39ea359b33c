-- ===== src/Inventory/Calls.antt =====
-- The calls of inventory.service.ts that change the service, and the ids of its items.
use mash_backend.Prelude.{
  ℕ, ◌+◌, ◌<◌, ◌≤◌, ◌≡◌, ◌≢◌, refl, ap, sym, ◌∙◌, inl, inr, Bool, true, false, Option, none, some,
  List, [], ◌∷◌, ◌++◌, arith, if◌then◌else◌, ◌==◌, ==_iff, ◌===◌, ===_iff, ===_refl, nat_eq, find,
  update_first, All, Map, get, put, get-put, get-remove, Bool-cases, Option-cases,
}
use mash_backend.Prelude
use mash_backend.Inventory.{
  InventoryItem, Service, CreateInventoryDto, UpdateInventoryDto, started, has_id, new_item, create,
  with_dto, update, remove, put_back, restore,
}
use mash_backend.Inventory.Ids.{
  IsValid, All-snoc, Distinct-snoc, find-snoc_other, find_below, find-some-id, find-remove_first,
  All-remove_first, Distinct-remove_first, All-update_first, Distinct-update_first,
  find-none-update_first,
}

-- A call that changes the service.
pub data Call : Type 0 where
  to_create : CreateInventoryDto → ℕ → Call
  to_update : ℕ → UpdateInventoryDto → ℕ → Call
  to_remove : ℕ → Call
  to_restore : ℕ → ℕ → Call

unfoldable pub step : Service → Call → Service
unfolding create update remove restore
step s (to_create dto now) = (create s dto now).0
step s (to_update id dto now) = (update s id dto now).0
step s (to_remove id) = (remove s id).0
step s (to_restore id now) = (restore s id now).0

unfoldable pub run : Service → List Call → Service
unfolding step
run s [] = s
run s (c ∷ cs) = run (step s c) cs

All-later : (n : ℕ) (is : List InventoryItem) → All (λ i. i.id < n) is → All (λ i. i.id < n + 1) is
All-later n [] h = tt
All-later n (i ∷ is) h = (omega (arith, h.0), All-later n is h.1)

unwrap : {i j : InventoryItem} → some i ≡ some j → i ≡ j
unwrap h = cc

differs : (a b n : ℕ) → a ≡ b → (b == n) ≡ false → (a === n) ≡ false
differs a b n e q = ground (arith, e, q)

-- What is still there after another key was removed.
kept_other :
    (m : Map ℕ InventoryItem) (id n : ℕ) {j : InventoryItem}
    → get n (Prelude.remove id m) ≡ some j
    → (id ≢ n) × (get n m ≡ some j)
kept_other m id n {j} g = elim (Bool-cases (id === n)) [
  | inl e ↦ absurd (none≢some (sym (get-remove n id m ∙ rw e refl) ∙ g))
  | inr e ↦ ((λ p. differ e ((===_iff id n).1 p)), sym (get-remove n id m ∙ rw e refl) ∙ g)
]
  where
    none≢some : none ≡ some j → ⊥
    none≢some e = cc

    differ : {b : Bool} → b ≡ false → b ≡ true → ⊥
    differ e f = cc

create-IsValid :
    (s : Service) (dto : CreateInventoryDto) (now : ℕ) → IsValid s → IsValid (create s dto now).0
unfolding create new_item
create-IsValid s dto now v = record {
  below =
      All-snoc (λ i. i.id < s.id_counter + 1) s.inventory (new_item s.id_counter dto now)
        (All-later s.id_counter s.inventory v.below) (omega arith);
  distinct =
      Distinct-snoc s.inventory (new_item s.id_counter dto now) v.distinct
        (find_below s.id_counter s.inventory v.below);
  gone = λ id i e.
      let (same, low, absent) = v.gone id i e in
      (
        same,
        omega (arith, low),
        find-snoc_other id s.inventory (new_item s.id_counter dto now) (λ p. omega (arith, low, p))
            ∙ absent,
      );
}

with_dto-id :
    (dto : UpdateInventoryDto) (now : ℕ) (i : InventoryItem) → (with_dto dto now i).id ≡ i.id
unfolding with_dto
with_dto-id dto now i = refl

update-IsValid :
    (s : Service) (id : ℕ) (dto : UpdateInventoryDto) (now : ℕ)
    → IsValid s
    → IsValid (update s id dto now).0
unfolding update
update-IsValid s id dto now v = elim (Option-cases (find (has_id id) s.inventory)) [
  | inl e ↦ rw (e, update) v
  | inr (i, e) ↦
      rw (e, update)
        (record {
          below =
              All-update_first (with_dto dto now) (with_dto-id dto now) (λ n. n < s.id_counter) id
                s.inventory v.below;
          distinct =
              Distinct-update_first (with_dto dto now) (with_dto-id dto now) id s.inventory
                v.distinct;
          gone = λ n j g.
              let (same, low, absent) = v.gone n j g in
              (
                same,
                low,
                find-none-update_first (with_dto dto now) (with_dto-id dto now) n id s.inventory
                    absent,
              );
        })
]

below_found :
    (s : Service) (id : ℕ) (i : InventoryItem)
    → IsValid s
    → find (has_id id) s.inventory ≡ some i
    → id < s.id_counter
below_found s id i v e = go s.inventory v.below e
  where
    go :
        (is : List InventoryItem)
        → All (λ i. i.id < s.id_counter) is
        → find (has_id id) is ≡ some i
        → id < s.id_counter
    go [] h e = cc
    go (j ∷ is) h e = ground (arith, h.0, go is h.1)

remove-IsValid : (s : Service) (id : ℕ) → IsValid s → IsValid (remove s id).0
unfolding remove
remove-IsValid s id v = elim (Option-cases (find (has_id id) s.inventory)) [
  | inl e ↦ rw (e, remove) v
  | inr (i, e) ↦
      rw (e, remove)
        (record {
          below = All-remove_first (λ k. k.id < s.id_counter) id s.inventory v.below;
          distinct = Distinct-remove_first id s.inventory v.distinct;
          gone = λ n j g.
              let same : i.id ≡ id = find-some-id id s.inventory i e in
              let low = below_found s id i v e in
              let left = find-remove_first n id s.inventory v.distinct in
              elim (Bool-cases (id == n)) [
                | inl q ↦
                    let n≡ : id ≡ n = (==_iff id n).0 q in
                    let hit : some i ≡ some j =
                      sym (get-put n i.id i s.deleted ∙ rw ((===_iff i.id n).1 (same ∙ n≡)) refl)
                      ∙ g in
                    (
                      ap (λ k. k.id) (sym (unwrap hit)) ∙ same ∙ n≡,
                      omega (arith, low, n≡),
                      left ∙ rw q refl,
                    )
                | inr q ↦
                    let kept : get n s.deleted ≡ some j =
                      sym (get-put n i.id i s.deleted ∙ rw (differs i.id id n same q) refl) ∙ g in
                    let (id_same, n_low, absent) = v.gone n j kept in
                    (id_same, n_low, left ∙ rw q absent)
              ];
        })
]

put_back-IsValid :
    (s : Service) (id : ℕ) (i : InventoryItem) (now : ℕ)
    → get id s.deleted ≡ some i
    → IsValid s
    → IsValid (put_back s id i now).0
unfolding put_back
put_back-IsValid s id i now there v =
    let (same, low, absent) = v.gone id i there in
    let absent_i : find (has_id i.id) s.inventory ≡ none =
      ap (λ n. find (has_id n) s.inventory) same ∙ absent in
    rw (absent, put_back)
      (record {
        below =
            All-snoc (λ k. k.id < s.id_counter) s.inventory (record i { updated_at = now }) v.below
              (omega (arith, low, same));
        distinct = Distinct-snoc s.inventory (record i { updated_at = now }) v.distinct absent_i;
        gone = λ n j g.
            let other = kept_other s.deleted id n g in
            let (id_same, n_low, gone) = v.gone n j other.1 in
            (
              id_same,
              n_low,
              find-snoc_other n s.inventory (record i { updated_at = now })
                    (λ p. other.0 (sym same ∙ p))
                  ∙ gone,
            );
      })

restore-IsValid : (s : Service) (id now : ℕ) → IsValid s → IsValid (restore s id now).0
unfolding restore
restore-IsValid s id now v = elim (Option-cases (get id s.deleted)) [
  | inl e ↦ rw (e, restore) v
  | inr (i, e) ↦ rw (e, restore) (put_back-IsValid s id i now e v)
]

-- No call lets two active items share an id, or an active and a deleted one.
pub step-IsValid : (s : Service) (c : Call) → IsValid s → IsValid (step s c)
unfolding step
step-IsValid s (to_create dto now) v = create-IsValid s dto now v
step-IsValid s (to_update id dto now) v = update-IsValid s id dto now v
step-IsValid s (to_remove id) v = remove-IsValid s id v
step-IsValid s (to_restore id now) v = restore-IsValid s id now v

pub run-IsValid : (s : Service) (cs : List Call) → IsValid s → IsValid (run s cs)
unfolding run
run-IsValid s [] v = v
run-IsValid s (c ∷ cs) v = run-IsValid (step s c) cs (step-IsValid s c v)

pub started-IsValid : IsValid started
unfolding get
started-IsValid = record { below = tt; distinct = tt; gone = λ id i e. absurd (none≢some e) }
  where
    none≢some : {i : InventoryItem} → none ≡ some i → ⊥
    none≢some e = cc
