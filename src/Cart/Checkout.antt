-- ===== src/Cart/Checkout.antt =====
-- The order made of a cart: `createOrderFromCart` of src/modules/orders/orders.service.ts, and the
-- handler `checkout` of src/modules/cart/cart.controller.ts that calls it. The addresses and notes,
-- which go from the request through the cart's metadata to the order, are left out.
use mash_backend.Prelude.{
  is_text, ℕ, String, Bool, true, false, not, ◌&&◌, Option, none, some, List, [], ◌∷◌,
  if◌then◌else◌,
}
use mash_backend.Prelude.Int.{ℤ, ◌-ℤ◌, ltb_ℤ}
use mash_backend.RateLimit.Redis.{Client}
use mash_backend.Cart.Types.{
  CartStatus, active, completed, Product, Cart, CartItem, SoldItem, Sale, Error, not_found,
  bad_request, record_missing, Result, ok, err,
}
use mash_backend.Cart.Database.{CartStore}
use mash_backend.Cart.Shipping.{ShippingAddress, ShippingMethod}
use mash_backend.Cart.Totals.{calculate_totals, find_cart, find_product, with_products}
use mash_backend.Cart.Cache.{CartResponse, World, get_or_create_cart}
pub mod Sales
pub mod Stock
pub mod Selling
pub mod Once
pub mod Handler

abbrev pub is_active_status : CartStatus → Bool
is_active_status active = true
is_active_status _ = false

-- The rows of the items that the order is made with.
unfoldable pub sold_items : List (CartItem × Product) → List SoldItem
sold_items [] = []
sold_items ((i, _) ∷ is) =
    record { product_id = i.product_id; quantity = i.quantity; price = i.price; total = i.total }
    ∷ sold_items is

-- The data of the order, and of the payment that it is created with.
unfoldable pub sale_of : String → String → Cart → List (CartItem × Product) → Sale
unfolding sold_items
sale_of order_number user cart is = record {
  order_number = order_number;
  user_id = user;
  subtotal = cart.subtotal;
  tax = cart.tax;
  shipping = cart.shipping;
  discount = cart.discount;
  total = cart.total;
  order_items = sold_items is;
  payment_amount = cart.total;
}

-- The check of every item, before anything is written.
unfoldable pub all_in_stock : List (CartItem × Product) → Bool
all_in_stock [] = true
all_in_stock ((i, p) ∷ is) =
    if not p.is_active then false else if ltb_ℤ p.stock i.quantity then false else all_in_stock is

-- `stock: { decrement: item.quantity }`.
unfoldable pub lowered : ℤ → Product → Product
unfolding ◌-ℤ◌
lowered q p = record p { stock = p.stock -ℤ q }

unfoldable pub mark_completed : ℕ → Cart → Cart
mark_completed now row = record row { status = completed; converted_at = some now }

module _ (s : CartStore) where
  open s use {Db, contents, cart_items, create_order, update_cart, update_product}

  -- The updates of the stock, item by item, and whether they all went through.
  unfoldable pub take_stock : Db → List (CartItem × Product) → Db × Bool
  unfolding lowered
  take_stock db [] = (db, true)
  take_stock db ((i, _) ∷ is) = elim (find_product s db i.product_id) [
    | none ↦ (db, false)
    | some _ ↦ take_stock (update_product db i.product_id (lowered i.quantity)) is
  ]

  -- The transaction, which leaves the database as it was if a call in it throws.
  unfoldable pub sell :
      Db → String → String → Sale → List (CartItem × Product) → ℕ → Db × Result Sale
  unfolding take_stock mark_completed
  sell db id order_id sale is now =
      let (db', done) = take_stock (create_order db order_id sale) is in
      if not done then (db, err record_missing) else elim (find_cart s db' id) [
        | none ↦ (db, err record_missing)
        | some _ ↦ (update_cart db' id (mark_completed now), ok sale)
      ]

  -- What follows once the active cart is found and joined with the products.
  unfoldable pub sell_items :
      Db
      → String
      → String
      → String
      → String
      → Cart
      → List (CartItem × Product)
      → ℕ
      → Db × Result Sale
  unfolding all_in_stock sale_of sell
  sell_items db user id order_id order_number cart [] now = (db, err bad_request)
  sell_items db user id order_id order_number cart (i ∷ is) now =
      if not (all_in_stock (i ∷ is))
      then (db, err bad_request)
      else sell db id order_id (sale_of order_number user cart (i ∷ is)) (i ∷ is) now

  unfoldable pub create_order_from_cart :
      Db → String → String → String → String → ℕ → Db × Result Sale
  unfolding sell_items with_products
  create_order_from_cart db user id order_id order_number now = elim (find_cart s db id) [
    | none ↦ (db, err not_found)
    | some cart ↦
        if not (is_text cart.user_id user && is_active_status cart.status)
        then (db, err not_found)
        else elim (with_products s db (cart_items db id)) [
          | none ↦ (db, err record_missing)
          | some is ↦ sell_items db user id order_id order_number cart is now
        ]
  ]

  -- `checkout` on the cart that it has found.
  unfoldable pub checkout_cart :
      Db
      → String
      → String
      → ShippingAddress
      → Option ShippingMethod
      → String
      → String
      → ℕ
      → Db × Result Sale
  unfolding calculate_totals create_order_from_cart
  checkout_cart db user id address method order_id order_number now =
      let (db', done) = calculate_totals s db id (some address) method now in
      elim done [
        | err e ↦ (db', err e)
        | ok _ ↦ create_order_from_cart db' user id order_id order_number now
      ]

module _ (s : CartStore) (r : Client CartResponse) where
  -- What follows once the cart is found.
  unfoldable pub checkout_found :
      World s r × Result CartResponse
      → String
      → ShippingAddress
      → Option ShippingMethod
      → String
      → String
      → ℕ
      → World s r × Result Sale
  unfolding checkout_cart
  checkout_found (w, err e) user address method order_id order_number now = (w, err e)
  checkout_found ((db, c), ok cart) user address method order_id order_number now =
      let (db', sold) = checkout_cart s db user cart.id address method order_id order_number now in
      ((db', c), sold)

  unfoldable pub checkout :
      World s r
      → String
      → ShippingAddress
      → Option ShippingMethod
      → String
      → String
      → String
      → ℕ
      → World s r × Result Sale
  unfolding get_or_create_cart checkout_found
  checkout w user address method new_id order_id order_number now =
      checkout_found (get_or_create_cart s r w (some user) none new_id now) user address method
        order_id order_number now
