-- ===== src/Orders/Paying.antt =====
-- What a payment does (orders.service.ts, `processPayment`).
use mash_backend.Prelude.{
  ===_iff, ap, ap, ℕ, ◌≡◌, ◌≢◌, refl, ◌∙◌, ◌⊎◌, inl, inr, String, true, false, none, some, List, [],
  ◌∷◌, arith, ◌===◌, if◌then◌else◌, string_eq, Bool-cases, Option-cases,
}
use mash_backend.Orders.Types.{
  UserRole, user, grower, buyer, admin, super_admin, processing, PaymentStatus, paid, CurrentUser,
  Payment, Order, not_found, forbidden, bad_request, Result, ok, err,
}
use mash_backend.Prelude.Tables.{mapped}
use mash_backend.Orders.Database.{Store, pay_in}
use mash_backend.Orders.{may_act, is_admin, is_paid, settle, process_payment}

-- The payment, made at that time.
abbrev pub made : ℕ → Payment → Payment
made now q = record q { status = paid; processed_at = some now }

-- The order after its payment.
abbrev pub put_to_work : String → ℕ → Order → Order
put_to_work payment now o = record (pay_in payment (made now) o) { status = processing }

is_paid-paid : (p : PaymentStatus) → is_paid p ≡ true → p ≡ paid
is_paid-paid PaymentStatus.pending h = absurd cc
is_paid-paid paid h = refl
is_paid-paid PaymentStatus.failed h = absurd cc
is_paid-paid PaymentStatus.refunded h = absurd cc

is_paid-unpaid : (p : PaymentStatus) → is_paid p ≡ false → p ≢ paid
is_paid-unpaid p h e = ground (arith, h, e)

-- The user is the owner of the order, or an administrator.
abbrev pub Entitled : Order → CurrentUser → Type 0
Entitled o u = (o.user_id ≡ u.id) ⊎ (u.role ≡ admin) ⊎ (u.role ≡ super_admin)

is_admin-cases : (r : UserRole) → is_admin r ≡ true → (r ≡ admin) ⊎ (r ≡ super_admin)
is_admin-cases user h = absurd cc
is_admin-cases grower h = absurd cc
is_admin-cases buyer h = absurd cc
is_admin-cases admin h = inl refl
is_admin-cases super_admin h = inr refl

may_act-Entitled : (o : Order) (u : CurrentUser) → may_act o.user_id u ≡ true → Entitled o u
may_act-Entitled o u h = elim (Bool-cases (o.user_id === u.id)) [
  | inl e ↦ inl ((===_iff o.user_id u.id).0 e)
  | inr e ↦ inr (is_admin-cases u.role (ground (arith, h, e)))
]

Entitled-may_act : (o : Order) (u : CurrentUser) → Entitled o u → may_act o.user_id u ≡ true
Entitled-may_act o u (inl e) = rw ((===_iff o.user_id u.id).1 e) refl
Entitled-may_act o u (inr (inl e)) = ground (arith, ap is_admin e)
Entitled-may_act o u (inr (inr e)) = ground (arith, ap is_admin e)

barred : (o : Order) (u : CurrentUser) → may_act o.user_id u ≡ false → Entitled o u → ⊥
barred o u h e = ground (arith, h, Entitled-may_act o u e)

-- The order has no payment, or its first one is made.
abbrev pub NothingDue : List Payment → Type 0
NothingDue [] = Unit
NothingDue (p ∷ ps) = p.status ≡ paid

module _ (s : Store) where
  open s use {
    Db, find_order, find_product, update_order, update_payment, order-update, order-update_payment,
    product-update, product-update_payment,
  }

  -- The database after the payment of that id is made and the order of that id is at work.
  abbrev pub Paid : Db → Db → String → String → ℕ → Order → Type 0
  Paid db db' id payment now o =
      ((j : String)
        → find_order db' j ≡ (
            if id === j
            then some (put_to_work payment now o)
            else mapped (pay_in payment (made now)) (find_order db j)))
      × ((j : String) → find_product db' j ≡ find_product db j)

  -- What `settle` does: it makes the first payment, or throws.
  abbrev pub Settled : Db → String → ℕ → Order → List Payment → Db × Result (Unit {0}) → Type 0
  Settled db id now o ps (db', r) =
      ((p : Payment) × (qs : List Payment) × (ps ≡ p ∷ qs)
        × (p.status ≢ paid)
        × (r ≡ ok tt)
        × Paid db db' id p.id now o)
      ⊎ (NothingDue ps × (r ≡ err bad_request) × (db' ≡ db))

  settle-Settled :
      (db : Db) (id : String) (now : ℕ) (o : Order) (ps : List Payment)
      → find_order db id ≡ some o
      → Settled db id now o ps (settle s db id now ps)
  unfolding settle
  settle-Settled db id now o [] here = inr (tt, refl, refl)
  settle-Settled db id now o (p ∷ ps) here = elim (Bool-cases (is_paid p.status)) [
    | inl e ↦ rw (e, settle) (inr (is_paid-paid p.status e, refl, refl))
    | inr e ↦
        rw (e, settle)
          (inl (
            p,
            ps,
            refl,
            is_paid-unpaid p.status e,
            refl,
            (
              (λ j.
                  order-update _ id j _
                  ∙ rw
                      (
                        order-update_payment db p.id id (made now),
                        order-update_payment db p.id j (made now),
                        here,
                      )
                      refl),
              (λ j. product-update _ id j _ ∙ product-update_payment db p.id j (made now)),
            ),
          ))
  ]

  -- All that a payment of an order can do. The order is not there, or the user is not entitled to it,
  -- or it has no payment that is due first: then the call throws the error of that case and changes
  -- nothing. Or its first payment becomes `PAID` at that time and the order `PROCESSING`, whatever its
  -- status was; no other order changes but for that payment, and no product.
  pub process_payment_effect :
      (db : Db) (id : String) (u : CurrentUser) (now : ℕ)
      → let (db', r) = process_payment s db id u now in
        ((find_order db id ≡ none) × (r ≡ err not_found) × (db' ≡ db))
        ⊎ ((o : Order) × (find_order db id ≡ some o)
            × (((Entitled o u → ⊥) × (r ≡ err forbidden) × (db' ≡ db))
                ⊎ (Entitled o u × Settled db id now o o.payments (db', r))))
  unfolding process_payment
  process_payment_effect db id u now = elim (Option-cases (find_order db id)) [
    | inl e ↦ rw (e, process_payment) (inl (refl, refl, refl))
    | inr (o, e) ↦ elim (Bool-cases (may_act o.user_id u)) [
      | inr f ↦ rw (e, f, process_payment) (inr (o, refl, inl (barred o u f, refl, refl)))
      | inl f ↦
          rw (e, f, process_payment)
            (inr (o, refl, inr (may_act-Entitled o u f, settle-Settled db id now o o.payments e)))
    ]
  ]
