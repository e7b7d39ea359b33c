-- ===== src/Cart/Database.antt =====
-- The database as cart.service.ts and orders.service.ts use it for carts, through the Prisma client,
-- which is not part of the repository: its calls are fields. `contents` is what the tables hold, and
-- the laws say what the calls do to it and what the queries find in it, as the client's documentation
-- does.
use mash_backend.Prelude.{
  is_text, ◌≡◌, String, Bool, true, Option, none, some, List, [], if◌then◌else◌, ◌===◌, string_eq,
}
use mash_backend.Prelude.Tables.{Table, added, changed, dropped}
use mash_backend.Cart.Types.{Product, Cart, active, CartItem, Sale}

-- By whom a cart is looked up.
pub data CartKey : Type 0 where
  by_user : String → CartKey
  by_session : String → CartKey

abbrev pub is_of : CartKey → Cart → Bool
is_of (by_user u) c = is_text c.user_id u
is_of (by_session s) c = is_text c.session_id s

-- An item that is not in the cart.
abbrev pub outside : String → Option CartItem → Option CartItem
outside c none = none
outside c (some i) = if i.cart_id === c then none else some i

pub record Contents : Type 0 where
  pub carts : Table Cart
  pub items : Table CartItem
  pub products : Table Product
  pub orders : Table Sale

pub record CartStore : Type 1 where
  pub Db : Type 0
  pub contents : Db → Contents
  pub active_cart : Db → CartKey → Option (String × Cart)
  pub cart_items : Db → String → List (String × CartItem)
  -- By the unique pair of the cart and the product.
  pub item_of : Db → String → String → Option (String × CartItem)
  -- Under ids that the database makes up.
  pub create_cart : Db → String → Cart → Db
  pub create_item : Db → String → CartItem → Db
  pub create_order : Db → String → Sale → Db
  pub update_cart : Db → String → (Cart → Cart) → Db
  pub update_item : Db → String → (CartItem → CartItem) → Db
  pub update_product : Db → String → (Product → Product) → Db
  pub delete_item : Db → String → Db
  pub delete_items : Db → String → Db
  pub contents-create_cart :
      (db : Db) (id : String) (c : Cart)
      → let t = contents db in
        contents (create_cart db id c) ≡ record t { carts = added id c t.carts }
  pub contents-create_item :
      (db : Db) (id : String) (i : CartItem)
      → let t = contents db in
        contents (create_item db id i) ≡ record t { items = added id i t.items }
  pub contents-create_order :
      (db : Db) (id : String) (o : Sale)
      → let t = contents db in
        contents (create_order db id o) ≡ record t { orders = added id o t.orders }
  pub contents-update_cart :
      (db : Db) (id : String) (f : Cart → Cart)
      → let t = contents db in
        contents (update_cart db id f) ≡ record t { carts = changed id f t.carts }
  pub contents-update_item :
      (db : Db) (id : String) (f : CartItem → CartItem)
      → let t = contents db in
        contents (update_item db id f) ≡ record t { items = changed id f t.items }
  pub contents-update_product :
      (db : Db) (id : String) (f : Product → Product)
      → let t = contents db in
        contents (update_product db id f) ≡ record t { products = changed id f t.products }
  pub contents-delete_item :
      (db : Db) (id : String)
      → let t = contents db in
        contents (delete_item db id) ≡ record t { items = dropped id t.items }
  pub contents-delete_items :
      (db : Db) (c : String)
      → let t = contents db in
        contents (delete_items db c) ≡ record t { items = λ j. outside c (t.items j) }
  pub active_cart-found :
      (db : Db) (k : CartKey) {id : String} {c : Cart}
      → active_cart db k ≡ some (id, c)
      → ((contents db).carts id ≡ some c) × (is_of k c ≡ true) × (c.status ≡ active)
  pub item_of-found :
      (db : Db) (c p : String) {id : String} {i : CartItem}
      → item_of db c p ≡ some (id, i)
      → ((contents db).items id ≡ some i) × (i.cart_id ≡ c) × (i.product_id ≡ p)
  pub cart_items-update_cart :
      (db : Db) (id c : String) (f : Cart → Cart)
      → cart_items (update_cart db id f) c ≡ cart_items db c
  pub cart_items-delete_items : (db : Db) (c : String) → cart_items (delete_items db c) c ≡ []
