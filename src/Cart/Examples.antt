-- ===== src/Cart/Examples.antt =====
-- The theorems about carts at concrete inputs, on a database and a Redis in memory.
use mathlib.Core.Path.{subst}
use mash_backend.Prelude.{
  ℕ, ◌≡◌, ◌≢◌, ◌⊎◌, refl, String, true, false, Option, none, some, List, [], ◌∷◌, arith, get, put,
  remove, Map, if◌then◌else◌, ◌===◌, string_eq, ===_iff,
}
use mash_backend.Prelude.Texts.{codes}
use mash_backend.Prelude.Int.{pos, ◌+ℤ◌, ◌-ℤ◌, ◌≤ℤ◌, ◌<ℤ◌}
use mash_backend.RateLimit.Memory.{memory as redis}
use mash_backend.Cart.Types.{Sale, completed, merged, Product, Cart, CartItem, Sale, Error, ok, err}
use mash_backend.Prelude.Tables.{Table}
use mash_backend.Cart.Memory.{Tables, first_row, all_rows, memory}
use mash_backend.Cart.Shipping.{ShippingAddress, ShippingMethod, standard, calculate_shipping}
use mash_backend.Cart.Totals.{
  find_cart, find_item, with_products, add_line, AddToCartDto, tax_on, get_tax_rate, total_weight,
  subtotal_of,
}
use mash_backend.Cart.Balance.{adding, run}
use mash_backend.Cart.Balance.Charged.{Charged, run-Charged}
use mash_backend.Cart.Limits.{Holds, add_line-Holds}
use mash_backend.Cart.Cache.{CartResponse, new_cart, get_cart, get_or_create_cart}
use mash_backend.Cart.Merging.{
  merge_item, merge_guest_cart, quantities_merged, item_added, item_skipped,
}
use mash_backend.Cart.Merging.Lines.{merge_item_effect, Combined, guest_line as moved_line}
use mash_backend.Cart.Merging.Status.{HasStatus, merge_guest_cart-merged}
use mash_backend.Cart.Checkout.{create_order_from_cart, checkout, checkout_cart, sale_of}
use mash_backend.Cart.Checkout.Selling.{Sellable, SaleOf, Recorded, create_order_from_cart_effect}
use mash_backend.Cart.Checkout.Once.{Distinct, sold_nonneg}
use mash_backend.Cart.Checkout.Handler.{checkout_cart-Balanced, sold-cached}

-- The table with one row, and the one with two.
abbrev only : {A : Type 0} → String → A → Table A
only k a id = if k === id then some a else none

abbrev both : {A : Type 0} → String → A → String → A → Table A
both k a l b id = if k === id then some a else only l b id

abbrev oyster : Product
oyster = record {
  price = 12000;
  stock = pos 10;
  max_cart_qty = some 5;
  weight = some 400;
  is_active = true;
}

-- Two packs, put in the cart when a pack was cheaper.
abbrev line : CartItem
line = record {
  cart_id = "c1";
  product_id = "oyster";
  quantity = pos 2;
  price = 10000;
  original_price = 10000;
  subtotal = pos 20000;
  discount = 0;
  total = pos 20000;
  is_available = true;
  unavailable_reason = none;
  customization = none;
}

abbrev cart : Cart
cart = record (new_cart (some "ana") (some "s1") 1) {
  subtotal = pos 20000;
  tax = pos 2400;
  total = pos 22400;
}

abbrev shop : Tables
shop = record {
  tables = record {
    carts = only "c1" cart;
    items = only "i1" line;
    products = only "oyster" oyster;
    orders = λ id. none;
  };
  cart_ids = "c1" ∷ [];
  item_ids = "i1" ∷ [];
}

abbrev two_more : AddToCartDto
two_more = record { product_id = "oyster"; quantity = 2; customization = none }

abbrev cebu : ShippingAddress
cebu = record {
  region = codes "CENTRAL VISAYAS";
  province = "Cebu";
  city = "Cebu City";
  barangay = "Lahug";
  address_line1 = "1 Gorordo Avenue";
}

run-Charged_example :
    (k : Cart) × Charged memory "c1" (run memory (adding two_more "i2") shop "c1" 7).0 k
unfolding run first_row all_rows
run-Charged_example = run-Charged memory "c1" 7 (adding two_more "i2") shop refl

add_line-Holds_example :
    (p : Product) × (some oyster ≡ some p)
    × (p.is_active ≡ true)
    × Holds memory
        (add_line memory shop "c1" two_more "i2" 7).0
        "c1"
        "oyster"
        p
        (pos 2 +ℤ pos 2)
        10000
unfolding first_row add_line all_rows
add_line-Holds_example = add_line-Holds memory shop "c1" two_more "i2" 7 refl

-- A guest's line of four packs, of which one does not go with the two that the user has.
abbrev guest_line : CartItem
guest_line = record line {
  cart_id = "c2";
  quantity = pos 4;
  subtotal = pos 40000;
  total = pos 40000;
}

merge_item_effect_example :
    let (db', outcome) = merge_item memory shop "c1" "i2" (guest_line, oyster) in
    ((id : String) × (own : CartItem) × (memory.item_of shop "c1" "oyster" ≡ some (id, own))
      × (outcome ≡ quantities_merged)
      × Combined memory own guest_line oyster (find_item memory db' id)
      × ((j : String) → j ≢ id → find_item memory db' j ≡ find_item memory shop j))
    ⊎ ((memory.item_of shop "c1" "oyster" ≡ none)
        × (true ≡ true)
        × (pos 4 ≤ℤ pos 10)
        × (outcome ≡ item_added)
        × ((j : String)
            → find_item memory db' j ≡ (
                if "i2" === j then some (moved_line "c1" guest_line) else find_item memory shop j)))
    ⊎ ((memory.item_of shop "c1" "oyster" ≡ none)
        × ((true ≡ false) ⊎ (pos 10 <ℤ pos 4))
        × (outcome ≡ item_skipped)
        × (db' ≡ shop))
merge_item_effect_example = merge_item_effect memory shop "c1" "i2" guest_line oyster

other : (id : String) → ("c1" === id) ≡ false → "c1" ≢ id
other id h e = ground (arith, h, (===_iff "c1" id).1 e)

-- The user's own cart, created while his browser had a session.
merge_guest_cart-merged_example : HasStatus merged (
    find_cart memory
      (merge_guest_cart memory
        (redis CartResponse)
        (shop, [])
        "ana"
        "s1"
        "c3"
        (λ n. "i3")
        "c4"
        7).0.0
      "c1")
unfolding first_row all_rows merge_guest_cart get put remove
merge_guest_cart-merged_example =
    merge_guest_cart-merged memory (redis CartResponse) (shop, []) "ana" "s1" "c3" "c4" (λ n. "i3")
      7 "c1" cart refl (other "c3" refl) (other "c4" refl) _ refl

abbrev joined : List (CartItem × Product)
joined = (line, oyster) ∷ []

joined_are : {is : List (CartItem × Product)} → some joined ≡ some is → joined ≡ is
joined_are h = cc

create_order_from_cart_effect_example :
    let r = create_order_from_cart memory shop "ana" "c1" "o1" "ORD-1" 7 in
    ((c : Cart) × (is : List (CartItem × Product)) × (o : Sale) × Sellable memory shop "ana" "c1" c
        is
      × SaleOf "ORD-1" "ana" c is o
      × (r.1 ≡ ok o)
      × Recorded memory shop r.0 "c1" "o1" 7 c o is)
    ⊎ (((c : Cart) (is : List (CartItem × Product)) → Sellable memory shop "ana" "c1" c is → ⊥)
        × ((e : Error) × (r ≡ (shop, err e))))
create_order_from_cart_effect_example =
    create_order_from_cart_effect memory shop "ana" "c1" "o1" "ORD-1" 7

sold_nonneg_example : pos 0 ≤ℤ pos 8
unfolding all_rows create_order_from_cart with_products
sold_nonneg_example =
    sold_nonneg memory shop "ana" "c1" "o1" "ORD-1" 7 {o = sale_of "ORD-1" "ana" cart joined}
      (λ is h. subst Distinct (joined_are h) ((tt, tt))) refl "oyster" oyster
      (record oyster { stock = pos 8 }) refl (omega arith) refl

-- The cart with the tax of the province and the cost of shipping there.
abbrev totalled : Cart
totalled = record cart {
  tax = pos 2000;
  shipping = pos 7500;
  total = pos 29500;
  last_activity_at = some 7;
}

checkout_cart-Balanced_example :
    (is : List (CartItem × Product)) × (some joined ≡ some is)
    × (pos 20000 ≡ pos 20000)
    × (pos 2000 ≡ tax_on (get_tax_rate cebu.region) (pos 20000))
    × (pos 7500 ≡ pos (calculate_shipping (total_weight is) cebu standard))
    × (pos 29500 ≡ pos 20000 +ℤ pos 2000 +ℤ pos 7500 -ℤ pos 0)
    × (pos 29500 ≡ pos 29500)
unfolding all_rows with_products sale_of checkout_cart subtotal_of
checkout_cart-Balanced_example =
    checkout_cart-Balanced memory shop "ana" "c1" cebu none "o1" "ORD-1" 7
      (sale_of "ORD-1" "ana" totalled joined) refl

abbrev cached : CartResponse
cached = record { id = "c1"; cart = cart; item_count = 1; items = ("i1", line) ∷ [] }

abbrev warm : Map String (CartResponse × ℕ)
warm = ("cart:user:ana", (cached, 86400001)) ∷ []

sold-cached_example :
    let db' = (create_order_from_cart memory shop "ana" "c1" "o1" "ORD-1" 7).0 in
    (get_or_create_cart memory (redis CartResponse) (db', warm) (some "ana") none "c3" 8
      ≡ ((db', warm), ok cached))
    × HasStatus completed (find_cart memory db' "c1")
    × ((a : ShippingAddress) (m : Option ShippingMethod) (order_id order_number : String) (o : Sale)
        → (checkout memory
            (redis CartResponse)
            (db', warm)
            "ana"
            a
            m
            "c3"
            order_id
            order_number
            8).1
          ≢ ok o)
unfolding all_rows create_order_from_cart get_cart get
sold-cached_example =
    sold-cached memory (redis CartResponse) shop warm "ana" "o1" "ORD-1" 7
      (sale_of "ORD-1" "ana" cart joined) cached (λ e. cc) refl 8 refl "c3"
