-- ===== src/Orders/Cancelling.antt =====
-- Cancelling an order, and deleting it (orders.service.ts, `cancel` and `remove`).
use mash_backend.Prelude.{
  ℕ, ◌≡◌, refl, ap, sym, ◌∙◌, inl, inr, String, true, false, Option, none, some, List, [], ◌∷◌,
  ◌===◌, ===_refl, string_eq, Bool-cases,
}
use mash_backend.Prelude.Int.{ℤ, int_laws}
use mash_backend.Orders.Types.{
  cancelled, CurrentUser, Product, OrderItem, Order, CreateOrderDto, ok, err, Error, bad_request,
  forbidden,
}
use mash_backend.Prelude.Tables.{mapped}
use mash_backend.Orders.Database.{Store}
use mash_backend.Orders.{
  may_act, new_order, validate_items, decrement, increment, create, call_off, cancel, is_final,
}
use mash_backend.Orders.Stock.{
  ordered, increment-Adds, restocked, more, AllFound, validate_items-AllFound, change_stocks_done,
  change_stocks-stock, change_stocks-order,
}
use mash_backend.Orders.Placing.{create-new_order}

abbrev pub called_off : String → ℕ → Order → Order
called_off notes now o = record o {
  status = cancelled;
  cancelled_at = some now;
  notes = some notes;
}

increment-decrement : (n : ℕ) (x : ℤ) → increment n (decrement n x) ≡ x
unfolding increment decrement
increment-decrement n x = omega int_laws

restocked-restocked :
    (n : ℕ) (o : Option Product)
    → mapped (restocked increment n) (mapped (restocked decrement n) o) ≡ o
restocked-restocked n none = refl
restocked-restocked n (some p) =
    ap (λ x. some (record p { stock = x })) (increment-decrement n p.stock)

module _ (s : Store) where
  open s use {Db, find_order, find_product, update_order, order-update, product-update}

  -- `cancel` refuses an order that is shipped, delivered or cancelled, whoever asks.
  pub cancel_final :
      (db : Db) (id notes : String) (u : CurrentUser) (now : ℕ) (o : Order)
      → find_order db id ≡ some o
      → is_final o.status ≡ true
      → let (db', r) = cancel s db id notes u now in ((e : Error) × (r ≡ err e)) × (db' ≡ db)
  unfolding cancel
  cancel_final db id notes u now o here final = elim (Bool-cases (may_act o.user_id u)) [
    | inl may ↦ rw (here, may, final, cancel) ((bad_request, refl), refl)
    | inr mayn ↦ rw (here, mayn, cancel) ((forbidden, refl), refl)
  ]

  -- Products are still there when only their stock has changed.
  created-AllFound :
      (db db' : Db) (n : String → ℕ)
      → ((j : String) → find_product db' j ≡ mapped (restocked decrement (n j)) (find_product db j))
      → (is : List OrderItem) → AllFound s db is
      → AllFound s db' is
  created-AllFound db db' n h [] found = tt
  created-AllFound db db' n h (i ∷ is) found = (
    (λ e. found.0 (mapped_none (find_product db i.product_id) (sym (h i.product_id) ∙ e))),
    created-AllFound db db' n h is found.1,
  )
    where
      mapped_none :
          (p : Option Product) → mapped (restocked decrement (n i.product_id)) p ≡ none → p ≡ none
      mapped_none none e = refl
      mapped_none (some p) e = cc

  module _ (db : Db) (id notes : String) (u : CurrentUser) (now : ℕ) (o : Order)
      (here : find_order db id ≡ some o) (may : may_act o.user_id u ≡ true)
      (open_yet : is_final o.status ≡ false) (found : AllFound s db o.order_items) where
    -- What a cancellation that goes through does, by the code's own helpers.
    cancel-called_off :
        let (db', r) = cancel s db id notes u now in
        (r ≡ ok tt)
        × (find_order db' id ≡ some (called_off notes now o))
        × ((j : String) → (id === j) ≡ false → find_order db' j ≡ find_order db j)
        × ((j : String)
            → find_product db' j
              ≡ mapped (restocked increment (ordered j o.order_items)) (find_product db j))
    unfolding cancel call_off
    cancel-called_off =
        let done = change_stocks_done s increment increment-Adds o.order_items db found in
        let same =
          λ (j : String). change_stocks-order s increment increment-Adds o.order_items db j in
        let stock =
          λ (j : String). change_stocks-stock s increment increment-Adds o.order_items db j found in
        rw (here, may, open_yet, done, cancel, call_off)
          (
            refl,
            order-update _ id id (called_off notes now) ∙ rw (===_refl id, same id, here) refl,
            (λ j other. order-update _ id j (called_off notes now) ∙ rw other (same j)),
            (λ j. product-update _ id j (called_off notes now) ∙ stock j),
          )

    -- An order that is there, whose user may act, which is not shipped, delivered or cancelled, and
    -- whose products are all there: the call succeeds, the order becomes `CANCELLED` at that time, no
    -- other order changes, and the stock of each product rises by what all the items order of it.
    pub cancel_effect :
        let (db', r) = cancel s db id notes u now in
        (r ≡ ok tt)
        × (find_order db' id ≡ some (called_off notes now o))
        × ((j : String) → (id === j) ≡ false → find_order db' j ≡ find_order db j)
        × ((j : String)
            → find_product db' j ≡ mapped (more (ordered j o.order_items)) (find_product db j))
    unfolding increment
    cancel_effect = cancel-called_off

  -- Where a user who may act creates an order of items that pass the check, and then cancels it, every
  -- product is as it was before the order: `cancel` returns what `create` took from the stock.
  pub cancel-create :
      (db : Db) (id payment_id order_number notes : String) (dto : CreateOrderDto) (u : CurrentUser)
      (now : ℕ)
      → may_act dto.user_id u ≡ true
      → validate_items s db dto.items ≡ ok tt
      → (j : String)
      → find_product (cancel s (create s db id payment_id order_number dto u).0 id notes u now).0 j
        ≡ find_product db j
  unfolding new_order
  cancel-create db id payment_id order_number notes dto u now may valid j =
      let (r, orders, stock) = create-new_order s db id payment_id order_number dto u may valid in
      let o = new_order payment_id order_number dto in
      let db' = (create s db id payment_id order_number dto u).0 in
      let found =
        created-AllFound db db' (λ k. ordered k dto.items) stock dto.items
          (validate_items-AllFound s db dto.items valid) in
      let effect =
        cancel-called_off db' id notes u now o (orders id ∙ rw (===_refl id) refl) may refl found in
      effect.3 j
      ∙ ap (mapped (restocked increment (ordered j dto.items))) (stock j)
      ∙ restocked-restocked (ordered j dto.items) (find_product db j)

  -- After a call of `cancel` that succeeds, as in `cancel-called_off`, a second one for that order, by
  -- anyone, throws and changes nothing: its stock is given back once.
  pub cancel_once :
      (db : Db) (id notes notes' : String) (u u' : CurrentUser) (now now' : ℕ) (o : Order)
      → find_order db id ≡ some o
      → may_act o.user_id u ≡ true
      → is_final o.status ≡ false
      → AllFound s db o.order_items
      → let db' = (cancel s db id notes u now).0 in
        let (db'', r) = cancel s db' id notes' u' now' in ((e : Error) × (r ≡ err e)) × (db'' ≡ db')
  cancel_once db id notes notes' u u' now now' o here may open_yet found =
      let effect = cancel-called_off db id notes u now o here may open_yet found in
      cancel_final (cancel s db id notes u now).0 id notes' u' now' (called_off notes now o)
        effect.1 refl
