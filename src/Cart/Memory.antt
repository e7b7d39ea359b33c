-- ===== src/Cart/Memory.antt =====
-- A database in memory that obeys the laws of the cart's interface: the tables, with the ids of the
-- rows that were ever created in the two of them that are searched.
use mash_backend.Prelude.{
  ◌≡◌, refl, inl, inr, String, Bool, true, ◌&&◌, Option, none, some, List, [], ◌∷◌, arith,
  if◌then◌else◌, ◌===◌, ===_iff, string_eq, Bool-cases, Option-cases,
}
use mash_backend.Cart.Types.{Cart, active, CartItem}
use mash_backend.Prelude.Tables.{Table, added, changed, dropped}
use mash_backend.Cart.Database.{Contents, CartStore, CartKey, is_of, outside}
use mash_backend.Cart.Checkout.{is_active_status}

pub record Tables : Type 0 where
  pub tables : Contents
  pub cart_ids : List String
  pub item_ids : List String

-- The first of the rows that passes the test.
unfoldable pub first_row : {A : Type 0} → (A → Bool) → Table A → List String → Option (String × A)
first_row p t [] = none
first_row p t (id ∷ ids) =
    let rest = first_row p t ids in
    elim (t id) [ none ↦ rest | some a ↦ if p a then some (id, a) else rest ]

-- All of them.
unfoldable pub all_rows : {A : Type 0} → (A → Bool) → Table A → List String → List (String × A)
all_rows p t [] = []
all_rows p t (id ∷ ids) =
    let rest = all_rows p t ids in
    elim (t id) [ none ↦ rest | some a ↦ if p a then (id, a) ∷ rest else rest ]

abbrev pub is_active_of : CartKey → Cart → Bool
is_active_of k c = is_of k c && is_active_status c.status

abbrev pub is_line : String → String → CartItem → Bool
is_line c p i = (i.cart_id === c) && (i.product_id === p)

abbrev pub in_cart : String → CartItem → Bool
in_cart c i = i.cart_id === c

pub first_row-found :
    {A : Type 0} (p : A → Bool) (t : Table A) (ids : List String) {id : String} {a : A}
    → first_row p t ids ≡ some (id, a)
    → (t id ≡ some a) × (p a ≡ true)
unfolding first_row
first_row-found p t [] h = absurd cc
first_row-found p t (j ∷ ids) {id} {a} h = elim (Option-cases (t j)) [
  | inl e ↦ first_row-found p t ids (ground (arith, e, h))
  | inr (b, e) ↦ elim (Bool-cases (p b)) [
    | inr f ↦ first_row-found p t ids (ground (arith, e, f, h))
    | inl f ↦ ground (arith, e, f, h)
  ]
]

pub all_rows-outside :
    (t : Table CartItem) (c : String) (ids : List String)
    → all_rows (in_cart c) (λ j. outside c (t j)) ids ≡ []
unfolding all_rows
all_rows-outside t c [] = refl
all_rows-outside t c (j ∷ ids) = ground (arith, all_rows-outside t c ids)

pub is_active_of-active :
    (k : CartKey) (c : Cart) → is_active_of k c ≡ true → (is_of k c ≡ true) × (c.status ≡ active)
is_active_of-active k c h = ground (arith, h)

pub is_line_of :
    (c p : String) (i : CartItem) → is_line c p i ≡ true → (i.cart_id ≡ c) × (i.product_id ≡ p)
is_line_of c p i h = ground (arith, ===_iff i.cart_id c, ===_iff i.product_id p, h)

abbrev pub memory : CartStore
memory = record {
  Db = Tables;
  contents = λ db. db.tables;
  active_cart = λ db k. first_row (is_active_of k) db.tables.carts db.cart_ids;
  cart_items = λ db c. all_rows (in_cart c) db.tables.items db.item_ids;
  item_of = λ db c p. first_row (is_line c p) db.tables.items db.item_ids;
  create_cart = λ db id c. record db {
    tables = record db.tables { carts = added id c db.tables.carts };
    cart_ids = id ∷ db.cart_ids;
  };
  create_item = λ db id i. record db {
    tables = record db.tables { items = added id i db.tables.items };
    item_ids = id ∷ db.item_ids;
  };
  create_order =
      λ db id o. record db { tables = record db.tables { orders = added id o db.tables.orders } };
  update_cart =
      λ db id f. record db { tables = record db.tables { carts = changed id f db.tables.carts } };
  update_item =
      λ db id f. record db { tables = record db.tables { items = changed id f db.tables.items } };
  update_product = λ db id f. record db {
    tables = record db.tables { products = changed id f db.tables.products };
  };
  delete_item =
      λ db id. record db { tables = record db.tables { items = dropped id db.tables.items } };
  delete_items = λ db c. record db {
    tables = record db.tables { items = λ j. outside c (db.tables.items j) };
  };
  contents-create_cart = λ db id c. refl;
  contents-create_item = λ db id i. refl;
  contents-create_order = λ db id o. refl;
  contents-update_cart = λ db id f. refl;
  contents-update_item = λ db id f. refl;
  contents-update_product = λ db id f. refl;
  contents-delete_item = λ db id. refl;
  contents-delete_items = λ db c. refl;
  active_cart-found = λ db k {id} {c} h.
      let (here, it) = first_row-found (is_active_of k) db.tables.carts db.cart_ids h in
      let (owner, live) = is_active_of-active k c it in (here, owner, live);
  item_of-found = λ db c p {id} {i} h.
      let (here, it) = first_row-found (is_line c p) db.tables.items db.item_ids h in
      let (cart, product) = is_line_of c p i it in (here, cart, product);
  cart_items-update_cart = λ db id c f. refl;
  cart_items-delete_items = λ db c. all_rows-outside db.tables.items c db.item_ids;
}
