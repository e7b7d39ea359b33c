-- ===== src/Cart/Checkout/Selling.antt =====
-- When a cart can be sold, and the order that is made of it (orders.service.ts, `createOrderFromCart`).
use mathlib.Core.Path.{subst}
use mash_backend.Prelude.{
  is_text, ℕ, ◌≡◌, ◌≢◌, refl, ap, sym, ◌∙◌, ◌⊎◌, inl, inr, String, true, Option, none, some, List,
  [], ◌∷◌, map, arith, ◌===◌, ===_iff, if◌then◌else◌, string_eq, Option-cases, All,
}
use mash_backend.Prelude.Int.{ℤ, ◌-ℤ◌, ◌≤ℤ◌}
use mash_backend.Cart.Types.{
  CartStatus, active, completed, abandoned, expired, merged, Product, Cart, CartItem, SoldItem,
  Sale, Error, ok, err,
}
use mash_backend.Prelude.Tables.{mapped}
use mash_backend.Cart.Database.{CartStore}
use mash_backend.Cart.Totals.{find_cart, find_product, with_products}
use mash_backend.Cart.Checkout.{
  is_active_status, sold_items, sale_of, all_in_stock, lowered, mark_completed,
}
use mash_backend.Cart.Checkout.Stock.{sold}
use mash_backend.Cart.Checkout.Sales.{Ready, Ready-cases, Ready-effect, call}

-- A row of the order for an item of the cart.
abbrev pub row_for : CartItem × Product → SoldItem
row_for x = record {
  product_id = x.0.product_id;
  quantity = x.0.quantity;
  price = x.0.price;
  total = x.0.total;
}

-- The order has the user, the number, the amounts and the items of the cart, and is paid as a whole.
pub record SaleOf (order_number user : String) (c : Cart) (is : List (CartItem × Product))
    (o : Sale) : Type 0 where
  pub numbered : o.order_number ≡ order_number
  pub owned : o.user_id ≡ user
  pub same_subtotal : o.subtotal ≡ c.subtotal
  pub same_tax : o.tax ≡ c.tax
  pub same_shipping : o.shipping ≡ c.shipping
  pub same_discount : o.discount ≡ c.discount
  pub same_total : o.total ≡ c.total
  pub same_items : o.order_items ≡ map row_for is
  pub paid_in_full : o.payment_amount ≡ c.total

sold_items-map : (is : List (CartItem × Product)) → sold_items is ≡ map row_for is
unfolding sold_items
sold_items-map [] = refl
sold_items-map ((i, p) ∷ is) = ap (λ l. row_for (i, p) ∷ l) (sold_items-map is)

sale_of-SaleOf :
    (order_number user : String) (c : Cart) (is : List (CartItem × Product))
    → SaleOf order_number user c is (sale_of order_number user c is)
unfolding sale_of
sale_of-SaleOf order_number user c is = record {
  numbered = refl;
  owned = refl;
  same_subtotal = refl;
  same_tax = refl;
  same_shipping = refl;
  same_discount = refl;
  same_total = refl;
  same_items = sold_items-map is;
  paid_in_full = refl;
}

-- The product of an item is active, and its stock covers the item.
abbrev pub Available : CartItem × Product → Type 0
Available x = (x.1.is_active ≡ true) × (x.0.quantity ≤ℤ x.1.stock)

all_in_stock-Available :
    (is : List (CartItem × Product)) → all_in_stock is ≡ true → All Available is
unfolding all_in_stock
all_in_stock-Available [] h = tt
all_in_stock-Available ((i, p) ∷ is) h =
    ((ground (arith, h), ground (arith, h)), all_in_stock-Available is (ground (arith, h)))

Available-all_in_stock :
    (is : List (CartItem × Product)) → All Available is → all_in_stock is ≡ true
unfolding all_in_stock
Available-all_in_stock [] h = refl
Available-all_in_stock ((i, p) ∷ is) ((on, covered), h) =
    ground (arith, on, covered, Available-all_in_stock is h)

is_active_status-active : (x : CartStatus) → is_active_status x ≡ true → x ≡ active
is_active_status-active active h = refl
is_active_status-active completed h = absurd cc
is_active_status-active abandoned h = absurd cc
is_active_status-active expired h = absurd cc
is_active_status-active merged h = absurd cc

is_text-some : (o : Option String) (t : String) → is_text o t ≡ true → o ≡ some t
is_text-some none t h = absurd cc
is_text-some (some u) t h = ap some ((===_iff u t).0 h)

some-is_text : (o : Option String) (t : String) → o ≡ some t → is_text o t ≡ true
some-is_text o t h = ap (λ x. is_text x t) h ∙ (===_iff t t).1 refl

-- The product with so much less stock.
abbrev pub with_less : ℤ → Product → Product
with_less n p = record p { stock = p.stock -ℤ n }

unwrap : {x y : List (CartItem × Product)} → some x ≡ some y → x ≡ y
unwrap h = cc

module _ (s : CartStore) where
  open s use {Db, contents, cart_items}

  -- The items are those rows with their products.
  abbrev pub LinesOf : Db → List (String × CartItem) → List (CartItem × Product) → Type 0
  LinesOf db [] [] = Unit
  LinesOf db ((id, row) ∷ rows) ((i, p) ∷ is) =
      (i ≡ row) × (find_product s db i.product_id ≡ some p) × LinesOf db rows is
  LinesOf db _ _ = ⊥

  -- The cart is the user's, is `ACTIVE` and is not empty, and each of its items can be had.
  pub record Sellable (db : Db) (user id : String) (c : Cart) (is : List (CartItem × Product))
      : Type 0 where
    pub here : find_cart s db id ≡ some c
    pub owner : c.user_id ≡ some user
    pub live : c.status ≡ active
    pub lines : LinesOf db (cart_items db id) is
    pub filled : is ≢ []
    pub available : All Available is

  with_products-LinesOf :
      (db : Db) (l : List (String × CartItem)) (is : List (CartItem × Product))
      → with_products s db l ≡ some is
      → LinesOf db l is
  unfolding with_products
  with_products-LinesOf db [] [] h = tt
  with_products-LinesOf db [] (i ∷ is) h = absurd cc
  with_products-LinesOf db ((id, i) ∷ l) is h =
      elim (Option-cases (find_product s db i.product_id)) [
        | inl e ↦ absurd (ground (arith, e, h))
        | inr (p, e) ↦ elim (Option-cases (with_products s db l)) [
          | inl f ↦ absurd (ground (arith, e, f, h))
          | inr (ps, f) ↦
              let same : with_products s db ((id, i) ∷ l) ≡ some ((i, p) ∷ ps) =
                rw (e, f, with_products) refl in
              subst (LinesOf db ((id, i) ∷ l)) (unwrap (sym same ∙ h))
                (refl, e, with_products-LinesOf db l ps f)
        ]
      ]

  LinesOf-with_products :
      (db : Db) (l : List (String × CartItem)) (is : List (CartItem × Product))
      → LinesOf db l is
      → with_products s db l ≡ some is
  unfolding with_products
  LinesOf-with_products db [] [] h = refl
  LinesOf-with_products db [] (i ∷ is) h = absurd h
  LinesOf-with_products db (x ∷ l) [] h = absurd h
  LinesOf-with_products db ((id, row) ∷ l) ((i, p) ∷ is) (same, here, rest) =
      let there : find_product s db row.product_id ≡ some p =
        ap (λ x. find_product s db x.product_id) (sym same) ∙ here in
      rw (there, LinesOf-with_products db l is rest, with_products)
        (ap (λ x. some ((x, p) ∷ is)) (sym same))

  Ready-Sellable :
      (db : Db) (user id : String) (c : Cart) (is : List (CartItem × Product))
      → Ready s db user id c is
      → Sellable db user id c is
  Ready-Sellable db user id c is (here, owner, live, joined, filled, stocked) = record {
    here = here;
    owner = is_text-some c.user_id user owner;
    live = is_active_status-active c.status live;
    lines = with_products-LinesOf db (cart_items db id) is joined;
    filled = filled;
    available = all_in_stock-Available is stocked;
  }

  Sellable-Ready :
      (db : Db) (user id : String) (c : Cart) (is : List (CartItem × Product))
      → Sellable db user id c is
      → Ready s db user id c is
  Sellable-Ready db user id c is h = (
    h.here,
    some-is_text c.user_id user h.owner,
    ap is_active_status h.live,
    LinesOf-with_products db (cart_items db id) is h.lines,
    h.filled,
    Available-all_in_stock is h.available,
  )

  -- The tables after the order is made: it is stored, each stock has fallen by what the items hold of its
  -- product, and the cart is `COMPLETED` at that time.
  abbrev pub Recorded :
      Db → Db → String → String → ℕ → Cart → Sale → List (CartItem × Product) → Type 0
  Recorded db db' id order_id now c o is =
      ((j : String)
        → (contents db').orders j ≡ (if order_id === j then some o else (contents db).orders j))
      × ((j : String) → find_product s db' j ≡ mapped (with_less (sold j is)) (find_product s db j))
      × ((j : String)
          → find_cart s db' j ≡ (
              if id === j
              then some (record c { status = completed; converted_at = some now })
              else find_cart s db j))

  module _ (db : Db) (user id order_id order_number : String) (now : ℕ) where
    ok≢err : {o : Sale} {e : Error} → ok o ≡ err e → ⊥
    ok≢err h = cc

    -- Either the cart is the user's, is active, is not empty, and has items whose products are there, active
    -- and in stock. Then the call makes an order with the cart's amounts and items, which is stored
    -- under its id; each stock falls by what the items hold of its product, the cart is `COMPLETED`,
    -- and no other order, product or cart changes. Or one of these fails, and the call throws and
    -- changes nothing.
    pub create_order_from_cart_effect :
        let r = call s db user id order_id order_number now in
        ((c : Cart) × (is : List (CartItem × Product)) × (o : Sale) × Sellable db user id c is
          × SaleOf order_number user c is o
          × (r.1 ≡ ok o)
          × Recorded db r.0 id order_id now c o is)
        ⊎ (((c : Cart) (is : List (CartItem × Product)) → Sellable db user id c is → ⊥)
            × ((e : Error) × (r ≡ (db, err e))))
    unfolding lowered mark_completed
    create_order_from_cart_effect = elim (Ready-cases s db user id order_id order_number now) [
      | inl (c, is, ready) ↦
          let (made, tables) = Ready-effect s db user id order_id order_number now c is ready in
          inl (
            c,
            is,
            sale_of order_number user c is,
            Ready-Sellable db user id c is ready,
            sale_of-SaleOf order_number user c is,
            made,
            tables,
          )
      | inr (e, h) ↦ inr (
        (λ c is can. ok≢err (
            sym
              (Ready-effect s db user id order_id order_number now c is
                (Sellable-Ready db user id c is can)).0
            ∙ ap (λ r. r.1) h)),
        (e, h),
      )
    ]
