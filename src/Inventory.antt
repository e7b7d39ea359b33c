-- ===== src/Inventory.antt =====
-- src/modules/inventory/inventory.service.ts: the items in memory, and those that were deleted and can
-- be restored. Prices are whole centavos; `now` is the clock's value. `search`, which only reads, is
-- left out.
use mash_backend.Prelude.{
  ℕ, ◌+◌, ◌==◌, String, Bool, Option, none, some, List, [], ◌∷◌, ◌++◌, if◌then◌else◌, find,
  update_first, Map, get, put, nat_eq,
}
use mash_backend.Prelude
pub mod Ids
pub mod Calls
pub mod Restore
mod Examples

pub record CreateInventoryDto : Type 0 where
  pub item_name : String
  pub sku : Option String
  pub quantity : ℕ
  pub price : Option ℕ
  pub warehouse_location : Option String
  pub supplier_name : Option String

-- The fields that a request leaves out are `none`.
pub record UpdateInventoryDto : Type 0 where
  pub item_name : Option String
  pub sku : Option String
  pub quantity : Option ℕ
  pub price : Option ℕ
  pub warehouse_location : Option String
  pub supplier_name : Option String

pub record InventoryItem : Type 0 where
  pub id : ℕ
  pub item_name : String
  pub sku : Option String
  pub quantity : ℕ
  pub price : Option ℕ
  pub warehouse_location : Option String
  pub supplier_name : Option String
  pub created_at : ℕ
  pub updated_at : ℕ

pub record Service : Type 0 where
  pub inventory : List InventoryItem
  pub id_counter : ℕ
  pub deleted : Map ℕ InventoryItem

-- What a method returns: an item, or the exception that it throws.
pub data Outcome : Type 0 where
  done : InventoryItem → Outcome
  not_found : Outcome

-- The service when it starts.
abbrev pub started : Service
started = record { inventory = []; id_counter = 1; deleted = [] }

abbrev pub has_id : ℕ → InventoryItem → Bool
has_id n i = i.id == n

-- `{ id, ...dto, createdAt, updatedAt }`.
unfoldable pub new_item : ℕ → CreateInventoryDto → ℕ → InventoryItem
new_item id dto now = record {
  id = id;
  item_name = dto.item_name;
  sku = dto.sku;
  quantity = dto.quantity;
  price = dto.price;
  warehouse_location = dto.warehouse_location;
  supplier_name = dto.supplier_name;
  created_at = now;
  updated_at = now;
}

unfoldable pub create : Service → CreateInventoryDto → ℕ → Service × InventoryItem
unfolding new_item
create s dto now =
    let item = new_item s.id_counter dto now in
    (record s { inventory = s.inventory ++ (item ∷ []); id_counter = s.id_counter + 1 }, item)

abbrev pub or_old : {A : Type 0} → Option A → A → A
or_old none old = old
or_old (some a) old = a

abbrev pub or_kept : {A : Type 0} → Option A → Option A → Option A
or_kept none old = old
or_kept (some a) old = some a

-- `{ ...item, ...dto, updatedAt }`.
unfoldable pub with_dto : UpdateInventoryDto → ℕ → InventoryItem → InventoryItem
with_dto dto now i = record i {
  item_name = or_old dto.item_name i.item_name;
  sku = or_kept dto.sku i.sku;
  quantity = or_old dto.quantity i.quantity;
  price = or_kept dto.price i.price;
  warehouse_location = or_kept dto.warehouse_location i.warehouse_location;
  supplier_name = or_kept dto.supplier_name i.supplier_name;
  updated_at = now;
}

abbrev pub outcome : Option InventoryItem → Outcome
outcome none = not_found
outcome (some i) = done i

abbrev pub find_all : Service → List InventoryItem
find_all s = s.inventory

unfoldable pub find_one : Service → ℕ → Outcome
find_one s id = outcome (find (has_id id) s.inventory)

unfoldable pub update : Service → ℕ → UpdateInventoryDto → ℕ → Service × Outcome
unfolding with_dto
update s id dto now = elim (find (has_id id) s.inventory) [
  | none ↦ (s, not_found)
  | some i ↦ (
    record s { inventory = update_first (has_id id) (with_dto dto now) s.inventory },
    done (with_dto dto now i),
  )
]

-- `splice(index, 1)` at the first item of that id.
unfoldable pub remove_first : ℕ → List InventoryItem → List InventoryItem
remove_first id [] = []
remove_first id (i ∷ is) = if has_id id i then is else i ∷ remove_first id is

unfoldable pub remove : Service → ℕ → Service × Outcome
unfolding remove_first
remove s id = elim (find (has_id id) s.inventory) [
  | none ↦ (s, not_found)
  | some i ↦
      (record s { inventory = remove_first id s.inventory; deleted = put i.id i s.deleted }, done i)
]

-- The rest of `restore`, for the item that was deleted.
unfoldable pub put_back : Service → ℕ → InventoryItem → ℕ → Service × Outcome
put_back s id i now = elim (find (has_id id) s.inventory) [
  | some there ↦ (record s { deleted = Prelude.remove id s.deleted }, done there)
  | none ↦ (
    record s {
      inventory = s.inventory ++ (record i { updated_at = now } ∷ []);
      deleted = Prelude.remove id s.deleted;
    },
    done (record i { updated_at = now }),
  )
]

unfoldable pub restore : Service → ℕ → ℕ → Service × Outcome
unfolding put_back
restore s id now = elim (get id s.deleted) [ none ↦ (s, not_found) | some i ↦ put_back s id i now ]
