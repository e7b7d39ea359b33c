-- ===== src/Inventory/Restore.antt =====
-- An item that is removed and restored (inventory.service.ts, `remove` and `restore`).
use mathlib.Core.Path.{subst}
use mash_backend.Prelude.{
  ℕ, ◌+◌, ◌<◌, ◌≤◌, ◌≡◌, ◌≢◌, refl, ap, sym, ◌∙◌, inl, inr, Bool, true, false, Option, none, some,
  List, [], ◌∷◌, ◌++◌, arith, if◌then◌else◌, ◌==◌, ==_iff, ◌===◌, ===_iff, ===_refl, nat_eq, find,
  update_first, All, Map, get, put, get-put, get-remove, Bool-cases, Option-cases,
}
use mash_backend.Prelude
use mash_backend.Inventory.{
  InventoryItem, Service, Outcome, done, not_found, started, has_id, find_one, remove_first, remove,
  put_back, restore, outcome,
}
use mash_backend.Inventory.Ids.{
  IsValid, find-snoc, find-snoc_other, find-some-id, find-remove_first,
}
use mash_backend.Inventory.Calls.{Call, run, run-IsValid, started-IsValid}

abbrev updated : ℕ → InventoryItem → InventoryItem
updated now i = record i { updated_at = now }

-- What the two calls give, for the item that was there.
abbrev Restored : Service → ℕ → ℕ → InventoryItem → Service × Outcome → Service × Outcome → Type 0
Restored s id now i (s', r) (s'', r') =
    (r ≡ done i)
    × (find_one s' id ≡ not_found)
    × (r' ≡ done (updated now i))
    × ((n : ℕ) → find_one s'' n ≡ (if id == n then done (updated now i) else find_one s n))

module _ (s : Service) (id now : ℕ) (i : InventoryItem) (v : IsValid s)
    (e : find (has_id id) s.inventory ≡ some i) where
  abbrev without : Service
  without = record s { inventory = remove_first id s.inventory; deleted = put i.id i s.deleted }

  abbrev again : Service
  again = record without {
    inventory = without.inventory ++ (updated now i ∷ []);
    deleted = Prelude.remove id without.deleted;
  }

  same_id : i.id ≡ id
  same_id = find-some-id id s.inventory i e

  absent : find (has_id id) (remove_first id s.inventory) ≡ none
  absent = find-remove_first id id s.inventory v.distinct ∙ rw ((==_iff id id).1 refl) refl

  remove-without : remove s id ≡ (without, done i)
  unfolding remove
  remove-without = rw (e, remove) refl

  restore-again : restore without id now ≡ (again, done (updated now i))
  unfolding restore put_back
  restore-again =
      let stored : get id (put i.id i s.deleted) ≡ some i =
        get-put id i.id i s.deleted ∙ rw ((===_iff i.id id).1 same_id) refl in
      rw (stored, restore, absent, put_back) refl

  find-again :
      (n : ℕ)
      → find (has_id n) again.inventory
        ≡ (if id == n then some (updated now i) else find (has_id n) s.inventory)
  find-again n = elim (Bool-cases (id == n)) [
    | inl q ↦
        let here : id ≡ n = (==_iff id n).0 q in
        find-snoc n without.inventory (updated now i)
          (find-remove_first n id s.inventory v.distinct ∙ rw q refl)
        ∙ rw ((==_iff i.id n).1 (same_id ∙ here), q) refl
    | inr q ↦
        find-snoc_other n without.inventory (updated now i) (λ p. ground (arith, same_id, p, q))
        ∙ find-remove_first n id s.inventory v.distinct
        ∙ rw q refl
  ]

  outcome-if :
      (b : Bool) (x y : Option InventoryItem)
      → outcome (if b then x else y) ≡ (if b then outcome x else outcome y)
  outcome-if true x y = refl
  outcome-if false x y = refl

  restored : let (s', r) = remove s id in Restored s id now i (s', r) (restore s' id now)
  unfolding find_one
  restored =
      subst (λ x. Restored s id now i x (restore x.0 id now)) (sym remove-without)
        (subst (Restored s id now i (without, done i)) (sym restore-again) (
          refl,
          ap outcome absent,
          refl,
          (λ n.
              ap outcome (find-again n)
              ∙ outcome-if (id == n) (some (updated now i)) (find (has_id n) s.inventory)),
        ))

found_done : (o : Option InventoryItem) {i : InventoryItem} → outcome o ≡ done i → o ≡ some i
found_done none e = cc
found_done (some i) e = cc

-- From the start of the service, whatever the calls: an item that is removed and then restored is found
-- again under its id, as it was but for the time of its update, and what is found under every other id
-- stays.
pub restore-remove :
    (cs : List Call) (id now : ℕ) (i : InventoryItem)
    → find_one (run started cs) id ≡ done i
    → let s = run started cs in
      let (s', r) = remove s id in
      let (s'', r') = restore s' id now in
      (r ≡ done i)
      × (find_one s' id ≡ not_found)
      × (r' ≡ done (record i { updated_at = now }))
      × ((n : ℕ)
          → find_one s'' n
            ≡ (if id == n then done (record i { updated_at = now }) else find_one s n))
unfolding find_one
restore-remove cs id now i found =
    restored (run started cs) id now i (run-IsValid started cs started-IsValid)
      (found_done (find (has_id id) (run started cs).inventory) found)
