-- ===== src/Orders/Deleted.antt =====
-- A deleted order gives no stock back (orders.service.ts, `remove`, `cancel` and `updateStatus`).
use mash_backend.Prelude.{
  ℕ, ◌≡◌, refl, ap, ◌∙◌, inl, inr, String, false, some, List, [], ◌∷◌, ◌===◌, ===_iff, ===_refl,
  string_eq, Bool-cases, Option-cases,
}
use mash_backend.Orders.Types.{
  OrderStatus, pending, confirmed, processing, shipped, delivered, cancelled, refunded, CurrentUser,
  Order, Error, err,
}
use mash_backend.Orders.Database.{Store}
use mash_backend.Orders.{
  may_act, is_final, is_valid_status_transition, increment, change_stocks, call_off, cancel, remove,
  update_status,
}
use mash_backend.Orders.Stock.{increment-Adds, change_stocks-order}
use mash_backend.Orders.Cancelling.{called_off, cancel_final}
use mash_backend.Orders.Transitions.{StatusCall, update_status_effect, after_call, elsewhere}

pub data Call : Type 0 where
  changing : StatusCall → Call
  -- With the notes, by that user, at that time.
  cancelling : String → String → CurrentUser → ℕ → Call
  removing : String → ℕ → Call

cancelled_stuck : (b : OrderStatus) → is_valid_status_transition cancelled b ≡ false
unfolding is_valid_status_transition
cancelled_stuck pending = refl
cancelled_stuck confirmed = refl
cancelled_stuck processing = refl
cancelled_stuck shipped = refl
cancelled_stuck delivered = refl
cancelled_stuck cancelled = refl
cancelled_stuck refunded = refl

abbrev deleted : ℕ → Order → Order
deleted now o = record o { status = cancelled; cancelled_at = some now }

module _ (s : Store) where
  open s use {Db, find_order, find_product, order-update, product-update}

  unfoldable pub step : Db → Call → Db
  unfolding update_status cancel remove
  step db (changing c) = after_call s db c
  step db (cancelling id notes u now) = (cancel s db id notes u now).0
  step db (removing id now) = (remove s db id now).0

  unfoldable pub run : Db → List Call → Db
  unfolding step
  run db [] = db
  run db (c ∷ cs) = run (step db c) cs

  abbrev pub IsCancelled : Db → String → Type 0
  IsCancelled db id = (o : Order) × (find_order db id ≡ some o) × (o.status ≡ cancelled)

  cancel_elsewhere :
      (db : Db) (j id notes : String) (u : CurrentUser) (now : ℕ)
      → (j === id) ≡ false
      → find_order (cancel s db j notes u now).0 id ≡ find_order db id
  unfolding cancel call_off
  cancel_elsewhere db j id notes u now other = elim (Option-cases (find_order db j)) [
    | inl e ↦ rw (e, cancel) refl
    | inr (o, e) ↦ elim (Bool-cases (may_act o.user_id u)) [
      | inr f ↦ rw (e, f, cancel) refl
      | inl f ↦ elim (Bool-cases (is_final o.status)) [
        | inl g ↦ rw (e, f, g, cancel) refl
        | inr g ↦
            let same = change_stocks-order s increment increment-Adds o.order_items db id in
            elim (Bool-cases (change_stocks s increment db o.order_items).1) [
              | inl h ↦
                  rw (e, f, g, h, cancel, call_off)
                    (order-update _ j id (called_off notes now) ∙ rw other same)
              | inr h ↦ rw (e, f, g, h, cancel, call_off) same
            ]
      ]
    ]
  ]

  -- The order that `cancel` is called for, where it is cancelled already.
  refused :
      (db : Db) (id notes : String) (u : CurrentUser) (now : ℕ)
      → IsCancelled db id
      → let (db', r) = cancel s db id notes u now in ((e : Error) × (r ≡ err e)) × (db' ≡ db)
  refused db id notes u now (o, here, gone) =
      cancel_final s db id notes u now o here (ap is_final gone)

  remove-order :
      (db : Db) (j id : String) (now : ℕ) → IsCancelled db id → IsCancelled (remove s db j now).0 id
  unfolding remove
  remove-order db j id now (o, here, gone) = elim (Option-cases (find_order db j)) [
    | inl e ↦ rw (e, remove) (o, here, gone)
    | inr (q, e) ↦
        rw (e, remove)
          (elim (Bool-cases (j === id)) [
            | inl same ↦
                (deleted now q, order-update db j id (deleted now) ∙ rw (same, e) refl, refl)
            | inr other ↦ (o, order-update db j id (deleted now) ∙ rw other here, gone)
          ])
  ]

  step-IsCancelled :
      (db : Db) (c : Call) (id : String) → IsCancelled db id → IsCancelled (step db c) id
  unfolding step
  step-IsCancelled db (changing c) id (o, here, gone) = elim (Bool-cases (c.id === id)) [
    | inr other ↦ (o, elsewhere s id db c other ∙ here, gone)
    | inl same ↦
        let there : find_order db c.id ≡ some o =
          ap (find_order db) ((===_iff c.id id).0 same) ∙ here in
        let stuck =
          ap (λ a. is_valid_status_transition a c.status) gone ∙ cancelled_stuck c.status in
        let kept = ((update_status_effect s db c.id c.status c.notes c.now o there).1 stuck).1 in
        (o, ap (λ d. find_order d id) kept ∙ here, gone)
  ]
  step-IsCancelled db (cancelling j notes u now) id (o, here, gone) = elim (Bool-cases (j === id)) [
    | inr other ↦ (o, cancel_elsewhere db j id notes u now other ∙ here, gone)
    | inl same ↦
        let there : find_order db j ≡ some o = ap (find_order db) ((===_iff j id).0 same) ∙ here in
        let kept = (refused db j notes u now (o, there, gone)).1 in
        (o, ap (λ d. find_order d id) kept ∙ here, gone)
  ]
  step-IsCancelled db (removing j now) id h = remove-order db j id now h

  run-IsCancelled :
      (cs : List Call) (db : Db) (id : String) → IsCancelled db id → IsCancelled (run db cs) id
  unfolding run
  run-IsCancelled [] db id h = h
  run-IsCancelled (c ∷ cs) db id h = run-IsCancelled cs (step db c) id (step-IsCancelled db c id h)

  -- The deletion of an order that is there changes no product. However many status updates,
  -- cancellations and deletions of this and other orders follow, with no payment and no shipping
  -- among them, the order is then `CANCELLED`, and a `cancel` of it, by anyone, throws and changes
  -- nothing: its stock is not given back.
  pub remove_keeps_stock :
      (db : Db) (id notes : String) (u : CurrentUser) (now now' : ℕ) (o : Order) (cs : List Call)
      → find_order db id ≡ some o
      → let db' = (remove s db id now).0 in
        let (db'', r) = cancel s (run db' cs) id notes u now' in
        ((j : String) → find_product db' j ≡ find_product db j)
        × IsCancelled (run db' cs) id
        × ((e : Error) × (r ≡ err e))
        × (db'' ≡ run db' cs)
  unfolding remove
  remove_keeps_stock db id notes u now now' o cs here =
      let there : find_order (remove s db id now).0 id ≡ some (deleted now o) =
        rw (here, remove) (order-update db id id (deleted now) ∙ rw (===_refl id, here) refl) in
      let still = run-IsCancelled cs (remove s db id now).0 id (deleted now o, there, refl) in
      let (thrown, kept) = refused (run (remove s db id now).0 cs) id notes u now' still in
      ((λ j. rw (here, remove) (product-update db id j (deleted now))), still, thrown, kept)
