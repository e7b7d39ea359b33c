-- ===== src/Orders/Examples.antt =====
-- The theorems about the orders at concrete inputs, on a database in memory.
use mash_backend.Prelude.{
  ℕ, ◌+◌, ◌≤◌, ◌≡◌, ◌⊎◌, refl, String, true, false, Option, none, some, List, [], ◌∷◌, arith, ◌===◌,
  string_eq, if◌then◌else◌, get,
}
use mash_backend.Prelude.Int.{pos, ◌<ℤ◌}
use mash_backend.Orders.Types.{
  confirmed, shipped, cancelled, buyer, CurrentUser, Product, OrderItem, Order, CreateOrderDto,
  Address, gcash, Error, not_found, forbidden, ok, err,
}
use mash_backend.Prelude.Tables.{mapped}
use mash_backend.Orders.Memory.{Tables, memory}
use mash_backend.Orders.{
  new_order, validate_items, create, cancel, remove, process_payment, is_valid_status_transition,
}
use mash_backend.Orders.Stock.{ordered, fewer, more}
use mash_backend.Orders.Placed.{Placed}
use mash_backend.Orders.Placing.{create_effect, create_oversells}
use mash_backend.Orders.Cancelling.{cancel_effect, cancel-create, called_off}
use mash_backend.Orders.Paying.{Entitled, Settled, process_payment_effect}
use mash_backend.Orders.Deleted.{Call, changing, cancelling, run, IsCancelled, remove_keeps_stock}
use mash_backend.Orders.Transitions.{
  moves, moves_bound, validate, validate-is_valid_status_transition,
}

abbrev shop : Tables
shop = record {
  orders = [];
  products =
      ("oyster", record { name = "Oyster"; stock = pos 10 })
      ∷ ("shiitake", record { name = "Shiitake"; stock = pos 3 })
      ∷ [];
}

abbrev ana : CurrentUser
ana = record { id = "ana"; role = buyer }

abbrev oysters : ℕ → OrderItem
oysters n = record { product_id = "oyster"; quantity = n; price = 500 }

abbrev shiitake : OrderItem
shiitake = record { product_id = "shiitake"; quantity = 1; price = 900 }

abbrev home : Address
home = record {
  street = "1 Rizal";
  city = "Baguio";
  state = "Benguet";
  zip_code = "2600";
  country = "PH";
}

abbrev order_of : List OrderItem → CreateOrderDto
order_of items = record {
  user_id = "ana";
  items = items;
  shipping_address = home;
  billing_address = none;
  payment_method = gcash;
  notes = none;
  shipping = some 50;
  tax = none;
  discount = none;
}

-- Nine oysters and a shiitake, as `create` stores them.
abbrev basket : Order
basket = new_order "p1" "ORD-1" (order_of (oysters 9 ∷ shiitake ∷ []))

-- The shop with that order.
abbrev after : Tables
after = record shop { orders = ("o1", basket) ∷ [] }

abbrev left : String → Option Product
left j = mapped (fewer (ordered j (oysters 9 ∷ shiitake ∷ []))) (get j shop.products)

create_effect_example :
    let (db', r) =
      create memory shop "o1" "p1" "ORD-1" (order_of (oysters 9 ∷ shiitake ∷ [])) ana in
    (o : Order) × Placed "p1" "ORD-1" (order_of (oysters 9 ∷ shiitake ∷ [])) o
    × (r ≡ ok o)
    × ((j : String) → get j db'.orders ≡ (if "o1" === j then some o else none))
    × ((j : String) → get j db'.products ≡ left j)
unfolding get validate_items
create_effect_example =
    create_effect memory shop "o1" "p1" "ORD-1" (order_of (oysters 9 ∷ shiitake ∷ [])) ana refl refl

create_oversells_example :
    (p' : Product) × (get "oyster"
        (create memory shop "o1" "p1" "ORD-1"
          (order_of (oysters 9 ∷ oysters 8 ∷ []))
          ana).0.products
      ≡ some p')
    × (p'.stock <ℤ pos 0)
unfolding get
create_oversells_example =
    create_oversells memory shop "o1" "p1" "ORD-1" (order_of (oysters 9 ∷ oysters 8 ∷ [])) ana
      (oysters 9) (oysters 8) (record { name = "Oyster"; stock = pos 10 }) refl refl refl refl
      (omega arith) (omega arith) (omega arith)

cancel_effect_example :
    let (db', r) = cancel memory after "o1" "Reason: late" ana 7 in
    (r ≡ ok tt)
    × (get "o1" db'.orders ≡ some (called_off "Reason: late" 7 basket))
    × ((j : String) → ("o1" === j) ≡ false → get j db'.orders ≡ get j after.orders)
    × ((j : String)
        → get j db'.products ≡ mapped (more (ordered j basket.order_items)) (get j after.products))
unfolding get new_order
cancel_effect_example =
    cancel_effect memory after "o1" "Reason: late" ana 7 basket refl refl refl
      ((λ e. cc), ((λ e. cc), tt))

cancel-create_example :
    get "oyster"
      (cancel memory
        (create memory shop "o1" "p1" "ORD-1" (order_of (oysters 9 ∷ shiitake ∷ [])) ana).0
        "o1"
        "Reason: late"
        ana
        7).0.products
    ≡ some (record { name = "Oyster"; stock = pos 10 })
unfolding get validate_items
cancel-create_example =
    cancel-create memory shop "o1" "p1" "ORD-1" "Reason: late"
      (order_of (oysters 9 ∷ shiitake ∷ [])) ana 7 refl refl "oyster"

moves_bound_example :
    moves memory "o1" after (
        record { id = "o1"; status = confirmed; notes = none; now = 7 }
        ∷ record { id = "o1"; status = shipped; notes = none; now = 8 }
        ∷ [])
      + 0
    ≤ 5
unfolding get new_order
moves_bound_example =
    moves_bound memory "o1"
      (record { id = "o1"; status = confirmed; notes = none; now = 7 }
        ∷ record { id = "o1"; status = shipped; notes = none; now = 8 }
        ∷ [])
      after basket refl

validate-is_valid_status_transition_example : validate "CANCELLED" (some shipped) ≡ true
unfolding is_valid_status_transition
validate-is_valid_status_transition_example = validate-is_valid_status_transition shipped cancelled

abbrev owner_of : Option Order → String
owner_of none = ""
owner_of (some o) = o.user_id

abbrev attempts : List Call
attempts =
    changing (record { id = "o1"; status = confirmed; notes = none; now = 8 })
    ∷ cancelling "o1" "Reason: late" ana 9
    ∷ []

-- The order is deleted, and someone tries to confirm and to cancel it.
remove_keeps_stock_example :
    let db' = (remove memory after "o1" 7).0 in
    let (db'', r) = cancel memory (run memory db' attempts) "o1" "Reason: late" ana 10 in
    ((j : String) → get j db'.products ≡ get j after.products)
    × IsCancelled memory (run memory db' attempts) "o1"
    × ((e : Error) × (r ≡ err e))
    × (db'' ≡ run memory db' attempts)
unfolding get
remove_keeps_stock_example =
    remove_keeps_stock memory after "o1" "Reason: late" ana 7 10 basket attempts refl

-- A cancelled order, paid all the same.
abbrev called_off_shop : Tables
called_off_shop = record after { orders = ("o1", called_off "Reason: late" 7 basket) ∷ [] }

process_payment_effect_example :
    let (db', r) = process_payment memory called_off_shop "o1" ana 8 in
    ((get "o1" called_off_shop.orders ≡ none) × (r ≡ err not_found) × (db' ≡ called_off_shop))
    ⊎ ((o : Order) × (get "o1" called_off_shop.orders ≡ some o)
        × (((Entitled o ana → ⊥) × (r ≡ err forbidden) × (db' ≡ called_off_shop))
            ⊎ (Entitled o ana × Settled memory called_off_shop "o1" 8 o o.payments (db', r))))
process_payment_effect_example = process_payment_effect memory called_off_shop "o1" ana 8
