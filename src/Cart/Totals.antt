-- ===== src/Cart/Totals.antt =====
-- The part of src/modules/cart/cart.service.ts that changes a cart's items and totals in the database:
-- what each handler does with a cart that it has found, without the cache around it. A call gives the
-- database it leaves, and what it throws. Ids that the database makes up and the clock's values are
-- arguments.
use mash_backend.Prelude.{
  ℕ, zero, suc, ◌+◌, ◌*◌, ◌/◌, String, true, not, Option, none, some, List, [], ◌∷◌, ◌==◌,
  if◌then◌else◌, ◌===◌, string_eq,
}
use mash_backend.Prelude.Int.{ℤ, pos, negsuc, ◌+ℤ◌, ◌-ℤ◌, ltb_ℤ, times}
use mash_backend.Cart.Types.{
  Product, Cart, CartItem, not_found, bad_request, record_missing, Result, ok, err,
}
use mash_backend.Cart.Database.{CartStore}
use mash_backend.Cart.Shipping.{
  ShippingAddress, ShippingMethod, standard, names_any, capital_names, calculate_shipping,
}

pub record AddToCartDto : Type 0 where
  pub product_id : String
  pub quantity : ℕ
  pub customization : Option String

pub record UpdateCartItemDto : Type 0 where
  pub quantity : ℕ
  pub customization : Option String

-- `x || y` for a number that may be missing.
abbrev pub or_number : Option ℕ → ℕ → ℕ
or_number none y = y
or_number (some zero) y = y
or_number (some (suc n)) y = suc n

-- `product.maxCartQty || product.stock`.
unfoldable pub max_qty : Product → ℤ
max_qty p = if or_number p.max_cart_qty 0 == 0 then p.stock else pos (or_number p.max_cart_qty 0)

-- In percent.
unfoldable pub get_tax_rate : List ℕ → ℕ
unfolding names_any
get_tax_rate region = if names_any region capital_names then 12 else 10

unfoldable pub rate_for : Option ShippingAddress → ℕ
unfolding get_tax_rate
rate_for none = 12
rate_for (some a) = get_tax_rate a.region

-- `amount.mul(rate).toDecimalPlaces(2)`, which rounds halves away from zero.
unfoldable pub tax_on : ℕ → ℤ → ℤ
unfolding ◌-ℤ◌
tax_on rate (pos n) = pos ((n * rate + 50) / 100)
tax_on rate (negsuc n) = pos 0 -ℤ pos ((suc n * rate + 50) / 100)

unfoldable pub subtotal_of : List (String × CartItem) → ℤ
unfolding ◌+ℤ◌
subtotal_of [] = pos 0
subtotal_of ((_, i) ∷ is) = i.total +ℤ subtotal_of is

-- A product with no weight, or with weight 0, counts as half a kilogram.
unfoldable pub total_weight : List (CartItem × Product) → ℤ
unfolding ◌+ℤ◌ times
total_weight [] = pos 0
total_weight ((i, p) ∷ is) = times (or_number p.weight 500) i.quantity +ℤ total_weight is

abbrev pub method_or_standard : Option ShippingMethod → ShippingMethod
method_or_standard none = standard
method_or_standard (some m) = m

unfoldable pub shipping_for :
    List (CartItem × Product) → Option ShippingAddress → Option ShippingMethod → ℤ
unfolding total_weight calculate_shipping
shipping_for is none m = pos 0
shipping_for is (some a) m = pos (calculate_shipping (total_weight is) a (method_or_standard m))

-- What `calculateTotals` writes, by the cart that it read.
unfoldable pub with_totals : ℤ → ℤ → ℤ → ℕ → Cart → Cart → Cart
unfolding ◌+ℤ◌ ◌-ℤ◌
with_totals subtotal tax shipping now read row = record row {
  subtotal = subtotal;
  tax = tax;
  shipping = shipping;
  total = subtotal +ℤ tax +ℤ shipping -ℤ pos read.discount;
  last_activity_at = some now;
}

-- `...(customization && { customization })`.
abbrev pub or_kept : Option String → Option String → Option String
or_kept none old = old
or_kept (some c) old = some c

-- What `updateItemQuantity` writes, by the item that it read.
unfoldable pub with_quantity : ℤ → Option String → CartItem → CartItem → CartItem
unfolding ◌-ℤ◌ times
with_quantity q custom read row = record row {
  quantity = q;
  subtotal = times read.price q;
  total = times read.price q -ℤ pos read.discount;
  customization = or_kept custom row.customization;
}

-- The row that `addItem` creates, at the price of the moment.
unfoldable pub new_item : String → AddToCartDto → Product → CartItem
unfolding times
new_item c dto p =
    let subtotal = times p.price (pos dto.quantity) in
    record {
      cart_id = c;
      product_id = dto.product_id;
      quantity = pos dto.quantity;
      price = p.price;
      original_price = p.price;
      subtotal = subtotal;
      discount = 0;
      total = subtotal;
      is_available = true;
      unavailable_reason = none;
      customization = dto.customization;
    }

-- What `clearCart` writes.
unfoldable pub cleared : ℕ → Cart → Cart
cleared now row = record row {
  subtotal = pos 0;
  tax = pos 0;
  discount = 0;
  total = pos 0;
  last_activity_at = some now;
}

module _ (s : CartStore) where
  open s use {
    Db, contents, cart_items, item_of, create_item, update_cart, update_item, delete_item,
    delete_items,
  }

  abbrev pub find_cart : Db → String → Option Cart
  find_cart db id = (contents db).carts id

  abbrev pub find_item : Db → String → Option CartItem
  find_item db id = (contents db).items id

  abbrev pub find_product : Db → String → Option Product
  find_product db id = (contents db).products id

  -- `include: { product: true }`: a required relation whose row is missing makes the query throw.
  unfoldable pub with_products : Db → List (String × CartItem) → Option (List (CartItem × Product))
  with_products db [] = some []
  with_products db ((_, i) ∷ is) =
      let rest = with_products db is in
      elim (find_product db i.product_id) [
        | none ↦ none
        | some p ↦ elim rest [ none ↦ none | some ps ↦ some ((i, p) ∷ ps) ]
      ]

  unfoldable pub calculate_totals :
      Db → String → Option ShippingAddress → Option ShippingMethod → ℕ → Db × Result (Unit {0})
  unfolding with_products subtotal_of tax_on rate_for shipping_for with_totals
  calculate_totals db c address method now = elim (find_cart db c) [
    | none ↦ (db, err not_found)
    | some cart ↦ elim (with_products db (cart_items db c)) [
      | none ↦ (db, err record_missing)
      | some is ↦
          let subtotal = subtotal_of (cart_items db c) in
          let tax = tax_on (rate_for address) subtotal in
          let shipping = shipping_for is address method in
          (update_cart db c (with_totals subtotal tax shipping now cart), ok tt)
    ]
  ]

  unfoldable pub update_item_quantity :
      Db → String → String → ℤ → Option String → ℕ → Db × Result (Unit {0})
  unfolding calculate_totals with_quantity
  update_item_quantity db c id q custom now = elim (find_item db id) [
    | none ↦ (db, err not_found)
    | some i ↦ calculate_totals (update_item db id (with_quantity q custom i)) c none none now
  ]

  -- The next step, on the database that the last one left, unless that threw.
  abbrev pub and_then :
      Db × Result (Unit {0}) → (Db → Db × Result (Unit {0})) → Db × Result (Unit {0})
  and_then (db, ok _) next = next db
  and_then (db, err e) next = (db, err e)

  -- `addItem`, once the product has passed its checks: a longer line, or a new one.
  unfoldable pub put_line :
      Db → String → AddToCartDto → Product → String → ℕ → Db × Result (Unit {0})
  unfolding update_item_quantity new_item max_qty ◌+ℤ◌
  put_line db c dto p new_id now = elim (item_of db c dto.product_id) [
    | some (id, i) ↦
        let q = i.quantity +ℤ pos dto.quantity in
        if ltb_ℤ (max_qty p) q
        then (db, err bad_request)
        else if ltb_ℤ p.stock q
        then (db, err bad_request)
        else update_item_quantity db c id q none now
    | none ↦ (create_item db new_id (new_item c dto p), ok tt)
  ]

  -- `addItem` on the cart that it has found.
  unfoldable pub add_line : Db → String → AddToCartDto → String → ℕ → Db × Result (Unit {0})
  unfolding put_line calculate_totals max_qty
  add_line db c dto new_id now = elim (find_product db dto.product_id) [
    | none ↦ (db, err not_found)
    | some p ↦
        if not p.is_active
        then (db, err bad_request)
        else if ltb_ℤ p.stock (pos dto.quantity)
        then (db, err bad_request)
        else if ltb_ℤ (max_qty p) (pos dto.quantity)
        then (db, err bad_request)
        else and_then (put_line db c dto p new_id now) (λ db'. calculate_totals db' c none none now)
  ]

  -- `updateItem`, up to the cache.
  unfoldable pub change_line : Db → String → String → UpdateCartItemDto → ℕ → Db × Result (Unit {0})
  unfolding update_item_quantity max_qty
  change_line db c id dto now = elim (find_item db id) [
    | none ↦ (db, err not_found)
    | some i ↦ elim (find_product db i.product_id) [
      | none ↦ (db, err record_missing)
      | some p ↦
          if not (i.cart_id === c)
          then (db, err bad_request)
          else if ltb_ℤ p.stock (pos dto.quantity)
          then (db, err bad_request)
          else if ltb_ℤ (max_qty p) (pos dto.quantity)
          then (db, err bad_request)
          else update_item_quantity db c id (pos dto.quantity) dto.customization now
    ]
  ]

  -- `removeItem`, up to the cache.
  unfoldable pub remove_line : Db → String → String → ℕ → Db × Result (Unit {0})
  unfolding calculate_totals
  remove_line db c id now = elim (find_item db id) [
    | none ↦ (db, err not_found)
    | some i ↦ elim (find_cart db i.cart_id) [
      | none ↦ (db, err record_missing)
      | some _ ↦
          if not (i.cart_id === c)
          then (db, err bad_request)
          else calculate_totals (delete_item db id) c none none now
    ]
  ]

  -- `clearCart`, up to the cache. The items go before the update of a missing cart throws.
  unfoldable pub clear_lines : Db → String → ℕ → Db × Result (Unit {0})
  unfolding cleared
  clear_lines db c now =
      let db' = delete_items db c in
      elim (find_cart db' c) [
        | none ↦ (db', err record_missing)
        | some _ ↦ (update_cart db' c (cleared now), ok tt)
      ]
