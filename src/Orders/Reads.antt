-- ===== src/Orders/Reads.antt =====
-- The handlers of orders.service.ts that read one order for a user: `findOne`, `getOrderItems`,
-- `getTracking` and `getInvoice`. The time of creation, the addresses, and the rows of the user and of
-- the products that an answer includes are left out.
use mash_backend.Prelude.{
  ℕ, ◌+◌, ◌*◌, ◌≡◌, refl, ap, ◌∙◌, inl, inr, String, true, false, not, Option, none, some, List, [],
  ◌∷◌, ◌++◌, map, ===_refl, if◌then◌else◌, string_eq, Option-cases,
}
use mash_backend.Prelude.Int.{ℤ, pos, ◌-ℤ◌}
use mash_backend.Orders.Types.{
  OrderStatus, shipped, delivered, cancelled, CurrentUser, OrderItem, Order, Payment, PaymentStatus,
  CreateOrderDto, Error, Result, ok, err, not_found, forbidden,
}
use mash_backend.Orders.Database.{Store}
use mash_backend.Orders.{may_act, validate_items, subtotal_of, new_order, create}
use mash_backend.Orders.Placing.{create-new_order}

pub record Tracking : Type 0 where
  pub order_number : String
  pub status : OrderStatus
  pub tracking_number : Option String
  -- After the first entry, `PENDING` at the time of creation.
  pub status_history : List (OrderStatus × ℕ)

-- `time && { status, timestamp: time }`, where it is kept.
abbrev pub entry : OrderStatus → Option ℕ → List (OrderStatus × ℕ)
entry s none = []
entry s (some t) = (s, t) ∷ []

abbrev pub tracking_of : Order → Tracking
tracking_of o = record {
  order_number = o.order_number;
  status = o.status;
  tracking_number = o.tracking_number;
  status_history =
      entry shipped o.shipped_at
      ++ (entry delivered o.delivered_at ++ entry cancelled o.cancelled_at);
}

pub record InvoiceItem : Type 0 where
  pub product_id : String
  pub quantity : ℕ
  pub price : ℕ
  pub total : ℕ

pub record Invoice : Type 0 where
  pub order_number : String
  pub items : List InvoiceItem
  pub subtotal : ℕ
  pub shipping : ℕ
  pub tax : ℕ
  pub discount : ℕ
  pub total : ℤ
  pub payment_status : Option PaymentStatus

-- An item's line. Its total is the one that `create` stored with the item.
abbrev pub invoice_item : OrderItem → InvoiceItem
invoice_item i = record {
  product_id = i.product_id;
  quantity = i.quantity;
  price = i.price;
  total = i.price * i.quantity;
}

-- `order.payments[0]?.status`.
abbrev pub first_status : List Payment → Option PaymentStatus
first_status [] = none
first_status (p ∷ ps) = some p.status

abbrev pub invoice_of : Order → Invoice
invoice_of o = record {
  order_number = o.order_number;
  items = map invoice_item o.order_items;
  subtotal = o.subtotal;
  shipping = o.shipping;
  tax = o.tax;
  discount = o.discount;
  total = o.total;
  payment_status = first_status o.payments;
}

abbrev pub sum_totals : List InvoiceItem → ℕ
sum_totals [] = 0
sum_totals (i ∷ is) = i.total + sum_totals is

sum_totals-subtotal : (is : List OrderItem) → sum_totals (map invoice_item is) ≡ subtotal_of is
unfolding subtotal_of
sum_totals-subtotal [] = refl
sum_totals-subtotal (i ∷ is) = ap (λ n. i.price * i.quantity + n) (sum_totals-subtotal is)

module _ (s : Store) where
  open s use {Db, find_order}

  unfoldable pub find_one : Db → String → CurrentUser → Result Order
  find_one db id u = elim (find_order db id) [
    | none ↦ err not_found
    | some o ↦ if not (may_act o.user_id u) then err forbidden else ok o
  ]

  unfoldable pub get_order_items : Db → String → CurrentUser → Result (List OrderItem)
  get_order_items db id u = elim (find_order db id) [
    | none ↦ err not_found
    | some o ↦ if not (may_act o.user_id u) then err forbidden else ok o.order_items
  ]

  unfoldable pub get_tracking : Db → String → CurrentUser → Result Tracking
  get_tracking db id u = elim (find_order db id) [
    | none ↦ err not_found
    | some o ↦ if not (may_act o.user_id u) then err forbidden else ok (tracking_of o)
  ]

  unfoldable pub get_invoice : Db → String → CurrentUser → Result Invoice
  get_invoice db id u = elim (find_order db id) [
    | none ↦ err not_found
    | some o ↦ if not (may_act o.user_id u) then err forbidden else ok (invoice_of o)
  ]

  -- The user neither owns an order of that id nor is an administrator.
  abbrev pub Stranger : Db → String → CurrentUser → Type 0
  Stranger db id u = (o : Order) → find_order db id ≡ some o → may_act o.user_id u ≡ false

  -- A user who neither owns the order nor is an administrator gets nothing of it from any of the four
  -- reads: each throws.
  pub reads_refuse :
      (db : Db) (id : String) (u : CurrentUser)
      → Stranger db id u
      → ((e : Error) × (find_one db id u ≡ err e))
        × ((e : Error) × (get_order_items db id u ≡ err e))
        × ((e : Error) × (get_tracking db id u ≡ err e))
        × ((e : Error) × (get_invoice db id u ≡ err e))
  unfolding find_one get_order_items get_tracking get_invoice
  reads_refuse db id u h = elim (Option-cases (find_order db id)) [
    | inl gone ↦
        rw (gone, find_one, get_order_items, get_tracking, get_invoice)
          ((not_found, refl), (not_found, refl), (not_found, refl), (not_found, refl))
    | inr (o, there) ↦
        rw (there, h o there, find_one, get_order_items, get_tracking, get_invoice)
          ((forbidden, refl), (forbidden, refl), (forbidden, refl), (forbidden, refl))
  ]

  -- After a user who may act creates an order of items that pass the check, its invoice adds up: the
  -- totals of its items make its subtotal, and its total is the subtotal with shipping and tax, less
  -- the discount. Its tracking has no entry after the first.
  pub create-invoice :
      (db : Db) (id payment_id order_number : String) (dto : CreateOrderDto) (u : CurrentUser)
      → may_act dto.user_id u ≡ true
      → validate_items s db dto.items ≡ ok tt
      → let (db', r) = create s db id payment_id order_number dto u in
        (v : Invoice) × (get_invoice db' id u ≡ ok v)
        × (sum_totals v.items ≡ v.subtotal)
        × (v.total ≡ pos (v.subtotal + v.shipping + v.tax) -ℤ pos v.discount)
        × ((t : Tracking) × (get_tracking db' id u ≡ ok t) × (t.status_history ≡ []))
  unfolding get_invoice get_tracking new_order
  create-invoice db id payment_id order_number dto u may valid =
      let o = new_order payment_id order_number dto in
      let effect = create-new_order s db id payment_id order_number dto u may valid in
      let there : find_order (create s db id payment_id order_number dto u).0 id ≡ some o =
        effect.1 id ∙ rw (===_refl id) refl in
      (
        invoice_of o,
        rw (get_invoice, there, may) refl,
        sum_totals-subtotal dto.items,
        refl,
        (tracking_of o, rw (get_tracking, there, may) refl, refl),
      )
