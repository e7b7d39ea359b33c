-- ===== src/Orders/Placing.antt =====
-- Creating an order (orders.service.ts, `create`).
use mathlib.Core.Path.{subst}
use mash_backend.Prelude.{
  ℕ, ◌+◌, ◌≡◌, ◌≢◌, refl, ap, sym, ◌∙◌, ◌⊎◌, inl, inr, String, true, some, List, [], ◌∷◌, arith,
  ◌===◌, ===_refl, ===_iff, if◌then◌else◌, string_eq, Bool-cases, Option-cases, All,
}
use mash_backend.Prelude.Int.{ℤ, pos, ◌≤ℤ◌, ◌<ℤ◌, int_laws}
use mash_backend.Orders.Types.{
  CurrentUser, Product, OrderItem, Order, CreateOrderDto, Error, Result, ok, err,
}
use mash_backend.Prelude.Tables.{mapped}
use mash_backend.Orders.Database.{Store}
use mash_backend.Orders.{
  may_act, new_order, validate_items, change_stocks, decrement, place, create,
}
use mash_backend.Orders.Placed.{Placed, new_order-Placed}
use mash_backend.Orders.Stock.{
  ordered, decrement-Adds, restocked, fewer, AllFound, validate_items-AllFound, change_stocks_done,
  change_stocks-stock, change_stocks-order,
}

Result-cases : (r : Result (Unit {0})) → (r ≡ ok tt) ⊎ ((e : Error) × (r ≡ err e))
Result-cases (ok tt) = inl refl
Result-cases (err e) = inr (e, refl)

unwrap : {x y : Product} → some x ≡ some y → x ≡ y
unwrap h = cc

decrement_neg : (n : ℕ) (x : ℤ) → x <ℤ pos n → decrement n x <ℤ pos 0
unfolding decrement
decrement_neg n x h = omega int_laws

decrement_nonneg : (n : ℕ) (x : ℤ) → pos n ≤ℤ x → pos 0 ≤ℤ decrement n x
unfolding decrement
decrement_nonneg n x h = omega int_laws

module _ (s : Store) where
  open s use {
    Db, find_order, find_product, create_order, update_order, update_product, order-create,
    product-create, order-update, product-update,
  }

  create-AllFound :
      (db : Db) (id : String) (o : Order) (is : List OrderItem)
      → AllFound s db is
      → AllFound s (create_order db id o) is
  create-AllFound db id o [] h = tt
  create-AllFound db id o (i ∷ is) h =
      ((λ e. h.0 (sym (product-create db id i.product_id o) ∙ e)), create-AllFound db id o is h.1)

  module _ (db : Db) (id : String) (o : Order) (found : AllFound s db o.order_items) where
    place_ok : (place s db id o).1 ≡ ok o
    unfolding place
    place_ok = rw (
      change_stocks_done s decrement decrement-Adds o.order_items (create_order db id o)
          (create-AllFound db id o o.order_items found),
      place,
    )

    done : (change_stocks s decrement (create_order db id o) o.order_items).1 ≡ true
    done =
        change_stocks_done s decrement decrement-Adds o.order_items (create_order db id o)
          (create-AllFound db id o o.order_items found)

    place-stock :
        (j : String)
        → find_product (place s db id o).0 j
          ≡ mapped (restocked decrement (ordered j o.order_items)) (find_product db j)
    unfolding place
    place-stock j =
        rw (done, place)
          (change_stocks-stock s decrement decrement-Adds o.order_items (create_order db id o) j
              (create-AllFound db id o o.order_items found)
            ∙ ap (mapped (restocked decrement (ordered j o.order_items)))
                (product-create db id j o))

    place-order :
        (j : String)
        → find_order (place s db id o).0 j ≡ (if id === j then some o else find_order db j)
    unfolding place
    place-order j =
        rw (done, place)
          (change_stocks-order s decrement decrement-Adds o.order_items (create_order db id o) j
            ∙ order-create db id j o)

  module _ (db : Db) (id payment_id order_number : String) (dto : CreateOrderDto)
      (u : CurrentUser) where
    -- What a creation that goes through does, by the code's own helpers.
    pub create-new_order :
        may_act dto.user_id u ≡ true
        → validate_items s db dto.items ≡ ok tt
        → let (db', r) = create s db id payment_id order_number dto u in
          let o = new_order payment_id order_number dto in
          (r ≡ ok o)
          × ((j : String) → find_order db' j ≡ (if id === j then some o else find_order db j))
          × ((j : String)
              → find_product db' j
                ≡ mapped (restocked decrement (ordered j dto.items)) (find_product db j))
    unfolding create new_order
    create-new_order may valid =
        let o = new_order payment_id order_number dto in
        let found = validate_items-AllFound s db dto.items valid in
        rw (may, valid, create)
          (place_ok db id o found, place-order db id o found, place-stock db id o found)

    -- A user who may act for the owner, and items that pass the check: the call gives an order that is
    -- `PENDING` with the items, addresses and amounts of the request, their sums, and one payment of
    -- its total that is `PENDING`. It is stored under the new id, every other order stays, and the
    -- stock of each product falls by what all the items order of it together.
    pub create_effect :
        may_act dto.user_id u ≡ true
        → validate_items s db dto.items ≡ ok tt
        → let (db', r) = create s db id payment_id order_number dto u in
          (o : Order) × Placed payment_id order_number dto o
          × (r ≡ ok o)
          × ((j : String) → find_order db' j ≡ (if id === j then some o else find_order db j))
          × ((j : String)
              → find_product db' j ≡ mapped (fewer (ordered j dto.items)) (find_product db j))
    unfolding decrement
    create_effect may valid =
        let (made, orders, stock) = create-new_order may valid in
        (
          new_order payment_id order_number dto,
          new_order-Placed payment_id order_number dto,
          made,
          orders,
          stock,
        )

    -- A call of `create` that throws leaves the database as it was.
    pub create_error_unchanged :
        {e : Error}
        → (create s db id payment_id order_number dto u).1 ≡ err e
        → (create s db id payment_id order_number dto u).0 ≡ db
    unfolding create
    create_error_unchanged {e} h = elim (Bool-cases (may_act dto.user_id u)) [
      | inl may ↦ elim (Result-cases (validate_items s db dto.items)) [
        | inl valid ↦ absurd (ok≢err (sym (create-new_order may valid).0 ∙ h))
        | inr (f, bad) ↦ rw (may, bad, create) refl
      ]
      | inr mayn ↦ rw (mayn, create) refl
    ]
      where
        ok≢err : {o : Order} → ok o ≡ err e → ⊥
        ok≢err p = cc

  -- No two items order one product.
  abbrev pub Distinct : List OrderItem → Type 0
  Distinct [] = Unit
  Distinct (i ∷ is) = All (λ k. k.product_id ≢ i.product_id) is × Distinct is

  ordered-absent :
      (j : String) (is : List OrderItem) → All (λ k. k.product_id ≢ j) is → ordered j is ≡ 0
  unfolding ordered
  ordered-absent j [] h = refl
  ordered-absent j (i ∷ is) h = ground (arith, ===_iff i.product_id j, ordered-absent j is h.1)

  validate-cons :
      (db : Db) (i : OrderItem) (is : List OrderItem)
      → validate_items s db (i ∷ is) ≡ ok tt
      → (validate_items s db is ≡ ok tt)
        × ((p : Product) × (find_product db i.product_id ≡ some p) × (pos i.quantity ≤ℤ p.stock))
  unfolding validate_items
  validate-cons db i is v = elim (Option-cases (find_product db i.product_id)) [
    | inl e ↦ absurd (ground arith)
    | inr (p, e) ↦ (ground arith, (p, e, ground arith))
  ]

  enough :
      (db : Db) (is : List OrderItem) (j : String) {p : Product}
      → validate_items s db is ≡ ok tt
      → Distinct is
      → find_product db j ≡ some p
      → pos 0 ≤ℤ p.stock
      → pos (ordered j is) ≤ℤ p.stock
  unfolding ordered
  enough db [] j v d f n = n
  enough db (i ∷ is) j {p} v d f n =
      let (valid, (q, g, room)) = validate-cons db i is v in
      elim (Bool-cases (i.product_id === j)) [
        | inl e ↦
            let same : i.product_id ≡ j = (===_iff i.product_id j).0 e in
            let q≡p : q ≡ p = unwrap (sym g ∙ ap (find_product db) same ∙ f) in
            let rest : ordered j is ≡ 0 =
              ap (λ k. ordered k is) (sym same) ∙ ordered-absent i.product_id is d.0 in
            rw (e, rest) (subst (λ x. pos (i.quantity + 0) ≤ℤ x.stock) q≡p (omega arith))
        | inr e ↦ rw e (enough db is j valid d.1 f n)
      ]

  -- An order of distinct products, by a user who may act, that passes the check drives no stock below
  -- zero: a product that had no negative stock has none afterwards.
  pub create_nonneg :
      (db : Db) (id payment_id order_number : String) (dto : CreateOrderDto) (u : CurrentUser)
      (j : String) {p p' : Product}
      → may_act dto.user_id u ≡ true
      → validate_items s db dto.items ≡ ok tt
      → Distinct dto.items
      → find_product db j ≡ some p
      → pos 0 ≤ℤ p.stock
      → find_product (create s db id payment_id order_number dto u).0 j ≡ some p'
      → pos 0 ≤ℤ p'.stock
  create_nonneg db id payment_id order_number dto u j {p} {p'} may valid d f n f' =
      let left = enough db dto.items j valid d f n in
      let stock = (create-new_order db id payment_id order_number dto u may valid).2 j in
      let same : restocked decrement (ordered j dto.items) p ≡ p' =
        unwrap (ap (mapped (restocked decrement (ordered j dto.items))) (sym f) ∙ sym stock ∙ f') in
      subst (λ x. pos 0 ≤ℤ x.stock) same (decrement_nonneg (ordered j dto.items) p.stock left)

  two_fit :
      (db : Db) (a b : OrderItem) (p : Product)
      → find_product db a.product_id ≡ some p
      → find_product db b.product_id ≡ some p
      → pos a.quantity ≤ℤ p.stock
      → pos b.quantity ≤ℤ p.stock
      → validate_items s db (a ∷ b ∷ []) ≡ ok tt
  unfolding validate_items
  two_fit db a b p f g fa fb = ground arith

  ordered-two :
      (a b : OrderItem)
      → b.product_id ≡ a.product_id
      → ordered a.product_id (a ∷ b ∷ []) ≡ a.quantity + b.quantity
  unfolding ordered
  ordered-two a b same =
      let here : (b.product_id === a.product_id) ≡ true =
        (===_iff b.product_id a.product_id).1 same in
      rw (===_refl a.product_id, here) (omega arith)

  -- The check looks at each item alone: two items of one product that fit singly but not together
  -- pass, and the order, by a user who may act, drives the product's stock below zero.
  pub create_oversells :
      (db : Db) (id payment_id order_number : String) (dto : CreateOrderDto) (u : CurrentUser)
      (a b : OrderItem) (p : Product)
      → may_act dto.user_id u ≡ true
      → dto.items ≡ a ∷ b ∷ []
      → b.product_id ≡ a.product_id
      → find_product db a.product_id ≡ some p
      → pos a.quantity ≤ℤ p.stock
      → pos b.quantity ≤ℤ p.stock
      → p.stock <ℤ pos (a.quantity + b.quantity)
      → (p' : Product) × (find_product (create s db id payment_id order_number dto u).0 a.product_id
          ≡ some p')
        × (p'.stock <ℤ pos 0)
  create_oversells db id payment_id order_number dto u a b p may items same f fa fb more =
      let fit : validate_items s db dto.items ≡ ok tt =
        ap (validate_items s db) items ∙ two_fit db a b p f (ap (find_product db) same ∙ f) fa fb in
      let effect = (create-new_order db id payment_id order_number dto u may fit).2 a.product_id in
      let both : ordered a.product_id dto.items ≡ a.quantity + b.quantity =
        ap (ordered a.product_id) items ∙ ordered-two a b same in
      (
        restocked decrement (ordered a.product_id dto.items) p,
        effect ∙ ap (mapped (restocked decrement (ordered a.product_id dto.items))) f,
        decrement_neg (ordered a.product_id dto.items) p.stock
            (subst (λ n. p.stock <ℤ pos n) (sym both) more),
      )
