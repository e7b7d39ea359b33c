-- ===== src/Orders/Database.antt =====
-- The database as orders.service.ts uses it through the Prisma client, which is not part of the
-- repository: its calls are fields, and what its documentation says of them are laws. An update of a
-- row that is not there throws; the helpers at the end test for that.
use mash_backend.Prelude.{◌≡◌, String, Option, some, if◌then◌else◌, ◌===◌, string_eq, map}
use mash_backend.Prelude.Tables.{mapped}
use mash_backend.Orders.Types.{Order, Product, Payment}

-- The order with the payment of that id changed.
abbrev pub pay_in : String → (Payment → Payment) → Order → Order
pay_in id f o = record o { payments = map (λ p. if p.id === id then f p else p) o.payments }

pub record Store : Type 1 where
  pub Db : Type 0
  pub find_order : Db → String → Option Order
  pub find_product : Db → String → Option Product
  -- Under an id that the database makes up.
  pub create_order : Db → String → Order → Db
  pub update_order : Db → String → (Order → Order) → Db
  pub update_product : Db → String → (Product → Product) → Db
  pub update_payment : Db → String → (Payment → Payment) → Db
  pub order-create :
      (db : Db) (id j : String) (o : Order)
      → find_order (create_order db id o) j ≡ (if id === j then some o else find_order db j)
  pub product-create :
      (db : Db) (id j : String) (o : Order)
      → find_product (create_order db id o) j ≡ find_product db j
  pub order-update :
      (db : Db) (id j : String) (f : Order → Order)
      → find_order (update_order db id f) j
        ≡ (if id === j then mapped f (find_order db id) else find_order db j)
  pub product-update :
      (db : Db) (id j : String) (f : Order → Order)
      → find_product (update_order db id f) j ≡ find_product db j
  pub product-update_product :
      (db : Db) (id j : String) (f : Product → Product)
      → find_product (update_product db id f) j
        ≡ (if id === j then mapped f (find_product db id) else find_product db j)
  pub order-update_product :
      (db : Db) (id j : String) (f : Product → Product)
      → find_order (update_product db id f) j ≡ find_order db j
  pub order-update_payment :
      (db : Db) (id j : String) (f : Payment → Payment)
      → find_order (update_payment db id f) j ≡ mapped (pay_in id f) (find_order db j)
  pub product-update_payment :
      (db : Db) (id j : String) (f : Payment → Payment)
      → find_product (update_payment db id f) j ≡ find_product db j
