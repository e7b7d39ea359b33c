-- ===== src/Inventory/Examples.antt =====
-- The theorems about the inventory at concrete inputs.
use mash_backend.Prelude.{ℕ, ◌≡◌, refl, none, some, List, [], ◌∷◌, ◌==◌, if◌then◌else◌}
use mash_backend.Inventory.{
  CreateInventoryDto, done, not_found, started, new_item, find_one, create, remove, remove_first,
  restore,
}
use mash_backend.Inventory.Calls.{Call, to_create, to_remove, run, step}
use mash_backend.Inventory.Restore.{restore-remove}

abbrev bags : CreateInventoryDto
bags = record {
  item_name = "Bags";
  sku = none;
  quantity = 40;
  price = some 250;
  warehouse_location = none;
  supplier_name = none;
}

-- The calls that make two items, and remove the first.
abbrev two_items : List Call
two_items = to_create bags 7 ∷ to_create (record bags { quantity = 2 }) 8 ∷ to_remove 1 ∷ []

restore-remove_example :
    let s = run started two_items in
    let (s', r) = remove s 2 in
    let (s'', r') = restore s' 2 9 in
    let item = new_item 2 (record bags { quantity = 2 }) 8 in
    (r ≡ done item)
    × (find_one s' 2 ≡ not_found)
    × (r' ≡ done (record item { updated_at = 9 }))
    × ((n : ℕ)
        → find_one s'' n ≡ (if 2 == n then done (record item { updated_at = 9 }) else find_one s n))
unfolding run step create remove remove_first find_one
restore-remove_example =
    restore-remove two_items 2 9 (new_item 2 (record bags { quantity = 2 }) 8) refl
