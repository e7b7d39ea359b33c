-- ===== src/Orders.antt =====
-- src/modules/orders/orders.service.ts: the handlers that change orders, payments and stock. A handler
-- takes the database and returns it changed, with its result or the exception that it throws. Ids
-- that the database makes up, order numbers and the clock's values are arguments.
use mash_backend.Prelude.{
  ℕ, zero, suc, ◌+◌, ◌*◌, String, Bool, true, false, not, ◌&&◌, ◌||◌, Option, none, some, List, [],
  ◌∷◌, ◌≡◌, if◌then◌else◌, ◌===◌, string_eq,
}
use mash_backend.Prelude.Int.{ℤ, pos, ◌+ℤ◌, ◌-ℤ◌, ltb_ℤ}
use mash_backend.Orders.Types.{
  OrderStatus, pending, confirmed, processing, shipped, delivered, cancelled, refunded,
  PaymentStatus, paid, UserRole, admin, super_admin, CurrentUser, Address, Product, OrderItem,
  Payment, Order, CreateOrderDto, Error, not_found, forbidden, bad_request, record_missing, Result,
  ok, err,
}
use mash_backend.Orders.Database.{Store}
pub mod Types
pub mod Database
pub mod Stock
pub mod Placed
pub mod Placing
pub mod Cancelling
pub mod Transitions
pub mod Paying
pub mod Deleted
pub mod Reads
mod Memory
mod Examples

-- `['ADMIN', 'SUPER_ADMIN'].includes(role)`.
abbrev pub is_admin : UserRole → Bool
is_admin admin = true
is_admin super_admin = true
is_admin _ = false

-- The test of every handler that takes the current user.
abbrev pub may_act : String → CurrentUser → Bool
may_act owner u = owner === u.id || is_admin u.role

-- `x || 0`.
abbrev pub or_zero : Option ℕ → ℕ
or_zero none = 0
or_zero (some n) = n

unfoldable pub subtotal_of : List OrderItem → ℕ
subtotal_of [] = 0
subtotal_of (i ∷ is) = i.price * i.quantity + subtotal_of is

-- The order that `create` writes.
unfoldable pub new_order : String → String → CreateOrderDto → Order
unfolding subtotal_of ◌-ℤ◌
new_order payment_id order_number dto =
    let subtotal = subtotal_of dto.items in
    let total =
      pos (subtotal + or_zero dto.shipping + or_zero dto.tax) -ℤ pos (or_zero dto.discount) in
    record {
      order_number = order_number;
      user_id = dto.user_id;
      status = pending;
      subtotal = subtotal;
      shipping = or_zero dto.shipping;
      tax = or_zero dto.tax;
      discount = or_zero dto.discount;
      total = total;
      shipping_address = dto.shipping_address;
      billing_address = elim dto.billing_address [ none ↦ dto.shipping_address | some a ↦ a ];
      notes = dto.notes;
      order_items = dto.items;
      payments =
          record {
            id = payment_id;
            amount = total;
            method = dto.payment_method;
            status = PaymentStatus.pending;
            processed_at = none;
          }
          ∷ [];
      tracking_number = none;
      shipped_at = none;
      delivered_at = none;
      cancelled_at = none;
    }

-- `isValidStatusTransition`.
unfoldable pub is_valid_status_transition : OrderStatus → OrderStatus → Bool
is_valid_status_transition pending confirmed = true
is_valid_status_transition pending cancelled = true
is_valid_status_transition confirmed processing = true
is_valid_status_transition confirmed cancelled = true
is_valid_status_transition processing shipped = true
is_valid_status_transition processing cancelled = true
is_valid_status_transition shipped delivered = true
is_valid_status_transition delivered refunded = true
is_valid_status_transition _ _ = false

-- `a || b` for texts that may be missing.
abbrev pub or_text : Option String → Option String → Option String
or_text none old = old
or_text (some s) old = if s === "" then old else some s

-- The time stamp that `updateStatus` adds.
abbrev pub stamped : OrderStatus → ℕ → Order → Order
stamped shipped now o = record o { shipped_at = some now }
stamped delivered now o = record o { delivered_at = some now }
stamped cancelled now o = record o { cancelled_at = some now }
stamped _ now o = o

-- The data of `updateStatus`, by the order `o` that was read.
unfoldable pub with_status : OrderStatus → Option String → ℕ → Order → Order → Order
with_status s notes now o row =
    stamped s now (record row { status = s; notes = or_text notes o.notes })

-- The data of `updateShipping`.
abbrev pub on_its_way : Option String → Option Address → ℕ → Order → Order
on_its_way tracking address now o = record o {
  status = shipped;
  shipping_address = elim address [ none ↦ o.shipping_address | some a ↦ a ];
  shipped_at = some now;
  tracking_number = or_text tracking o.tracking_number;
}

-- The statuses at which `cancel` refuses.
abbrev pub is_final : OrderStatus → Bool
is_final shipped = true
is_final delivered = true
is_final cancelled = true
is_final _ = false

abbrev pub is_paid : PaymentStatus → Bool
is_paid paid = true
is_paid _ = false

-- `stock: { decrement: q }` and `stock: { increment: q }`.
unfoldable pub decrement : ℕ → ℤ → ℤ
decrement q stock = stock -ℤ pos q

unfoldable pub increment : ℕ → ℤ → ℤ
increment q stock = stock +ℤ pos q

module _ (s : Store) where
  open s use {
    Db, find_order, find_product, create_order, update_order, update_product, update_payment,
  }

  -- The check of `create`, item by item.
  unfoldable pub validate_items : Db → List OrderItem → Result (Unit {0})
  validate_items db [] = ok tt
  validate_items db (i ∷ is) =
      let rest = validate_items db is in
      elim (find_product db i.product_id) [
        | none ↦ err bad_request
        | some p ↦ if ltb_ℤ p.stock (pos i.quantity) then err bad_request else rest
      ]

  -- The `product.update` calls of `create` and `cancel`, item by item: the database after those that
  -- were made, and whether they all went through. An update of a missing row throws.
  unfoldable pub change_stocks : (ℕ → ℤ → ℤ) → Db → List OrderItem → Db × Bool
  change_stocks f db [] = (db, true)
  change_stocks f db (i ∷ is) = elim (find_product db i.product_id) [
    | none ↦ (db, false)
    | some _ ↦
        change_stocks f
          (update_product db i.product_id (λ p. record p { stock = f i.quantity p.stock })) is
  ]

  -- The writes of `create`. The order is written before the transaction that takes the stock; the
  -- transaction goes through as a whole or not at all.
  unfoldable pub place : Db → String → Order → Db × Result Order
  unfolding change_stocks decrement
  place db id o =
      let db' = create_order db id o in
      let (db'', done) = change_stocks decrement db' o.order_items in
      if done then (db'', ok o) else (db', err record_missing)

  unfoldable pub create :
      Db → String → String → String → CreateOrderDto → CurrentUser → Db × Result Order
  unfolding validate_items place new_order
  create db id payment_id order_number dto u =
      if not (may_act dto.user_id u)
      then (db, err forbidden)
      else elim (validate_items db dto.items) [
        | err e ↦ (db, err e)
        | ok _ ↦ place db id (new_order payment_id order_number dto)
      ]

  -- `remove`, the soft delete.
  unfoldable pub remove : Db → String → ℕ → Db × Result (Unit {0})
  remove db id now = elim (find_order db id) [
    | none ↦ (db, err not_found)
    | some _ ↦
        (update_order db id (λ o. record o { status = cancelled; cancelled_at = some now }), ok tt)
  ]

  unfoldable pub update_status :
      Db → String → OrderStatus → Option String → ℕ → Db × Result (Unit {0})
  unfolding is_valid_status_transition with_status
  update_status db id status notes now = elim (find_order db id) [
    | none ↦ (db, err not_found)
    | some o ↦
        if not (is_valid_status_transition o.status status)
        then (db, err bad_request)
        else (update_order db id (with_status status notes now o), ok tt)
  ]

  -- The writes of `cancel`: the stock item by item, in no transaction, and then the order.
  unfoldable pub call_off : Db → String → String → ℕ → Order → Db × Result (Unit {0})
  unfolding change_stocks increment
  call_off db id notes now o =
      let (db', done) = change_stocks increment db o.order_items in
      if done
      then (
        update_order db' id
            (λ r. record r { status = cancelled; cancelled_at = some now; notes = some notes }),
        ok tt,
      )
      else (db', err record_missing)

  -- `notes` is the text that `cancel` makes of the reason and the notes that it was given.
  unfoldable pub cancel : Db → String → String → CurrentUser → ℕ → Db × Result (Unit {0})
  unfolding call_off
  cancel db id notes u now = elim (find_order db id) [
    | none ↦ (db, err not_found)
    | some o ↦
        if not (may_act o.user_id u)
        then (db, err forbidden)
        else if is_final o.status
        then (db, err bad_request)
        else call_off db id notes now o
  ]

  -- The writes of `processPayment`, by the order's payments.
  unfoldable pub settle : Db → String → ℕ → List Payment → Db × Result (Unit {0})
  settle db id now [] = (db, err bad_request)
  settle db id now (p ∷ ps) = if is_paid p.status then (db, err bad_request) else (
    update_order (update_payment db p.id (λ q. record q { status = paid; processed_at = some now }))
        id (λ o. record o { status = processing }),
    ok tt,
  )

  unfoldable pub process_payment : Db → String → CurrentUser → ℕ → Db × Result (Unit {0})
  unfolding settle
  process_payment db id u now = elim (find_order db id) [
    | none ↦ (db, err not_found)
    | some o ↦
        if not (may_act o.user_id u) then (db, err forbidden) else settle db id now o.payments
  ]

  unfoldable pub update_shipping :
      Db → String → Option String → Option Address → ℕ → Db × Result (Unit {0})
  update_shipping db id tracking address now = elim (find_order db id) [
    | none ↦ (db, err not_found)
    | some _ ↦ (update_order db id (on_its_way tracking address now), ok tt)
  ]
