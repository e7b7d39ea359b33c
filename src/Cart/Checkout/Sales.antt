-- ===== src/Cart/Checkout/Sales.antt =====
-- When a cart becomes an order, and what that changes (orders.service.ts, `createOrderFromCart`).
use mathlib.Core.Path.{subst}
use mash_backend.Prelude.{
  is_text, ℕ, ◌≡◌, ◌≢◌, refl, ap, sym, ◌∙◌, ◌⊎◌, inl, inr, String, true, none, some, List, [], ◌∷◌,
  ◌===◌, if◌then◌else◌, string_eq, Bool-cases, Option-cases,
}
use mash_backend.Cart.Types.{
  Product, Cart, CartItem, Sale, Error, not_found, bad_request, record_missing, Result, ok, err,
}
use mash_backend.Prelude.Tables.{mapped}
use mash_backend.Cart.Database.{CartStore}
use mash_backend.Cart.Totals.{find_cart, find_product, with_products}
use mash_backend.Cart.Checkout.{
  is_active_status, sale_of, all_in_stock, lowered, mark_completed, take_stock, sell, sell_items,
  create_order_from_cart,
}
use mash_backend.Cart.Checkout.Stock.{
  sold, AllFound, Joined, with_products-Joined, Joined-AllFound, take_stock_done, take_stock-stock,
  take_stock-rest,
}

module _ (s : CartStore) where
  open s use {
    Db, contents, cart_items, create_order, update_cart, update_product, contents-create_order,
    contents-update_cart,
  }

  -- The tables after a cart has become an order.
  abbrev pub Sold : Db → Db → String → String → ℕ → Cart → Sale → List (CartItem × Product) → Type 0
  Sold db db' id order_id now cart o is =
      ((j : String)
        → (contents db').orders j ≡ (if order_id === j then some o else (contents db).orders j))
      × ((j : String) → find_product s db' j ≡ mapped (lowered (sold j is)) (find_product s db j))
      × ((j : String)
          → find_cart s db' j
            ≡ (if id === j then some (mark_completed now cart) else find_cart s db j))

  -- The cart is the user's, is active and has items that are all to be had.
  abbrev pub Ready : Db → String → String → Cart → List (CartItem × Product) → Type 0
  Ready db user id cart is =
      (find_cart s db id ≡ some cart)
      × (is_text cart.user_id user ≡ true)
      × (is_active_status cart.status ≡ true)
      × (with_products s db (cart_items db id) ≡ some is)
      × (is ≢ [])
      × (all_in_stock is ≡ true)

  create-AllFound :
      (db : Db) (order_id : String) (o : Sale) (is : List (CartItem × Product))
      → AllFound s db is
      → AllFound s (create_order db order_id o) is
  create-AllFound db order_id o [] h = tt
  create-AllFound db order_id o (i ∷ is) h = (
    subst (λ t. t.products i.0.product_id ≢ none) (sym (contents-create_order db order_id o)) h.0,
    create-AllFound db order_id o is h.1,
  )

  module _ (db : Db) (id order_id : String) (o : Sale) (is : List (CartItem × Product)) (now : ℕ)
      (cart : Cart) (here : find_cart s db id ≡ some cart) (joined : Joined s db is) where
    abbrev taken : Db
    taken = (take_stock s (create_order db order_id o) is).0

    found : AllFound s (create_order db order_id o) is
    found = create-AllFound db order_id o is (Joined-AllFound s db is joined)

    took : (take_stock s (create_order db order_id o) is).1 ≡ true
    took = take_stock_done s is (create_order db order_id o) found

    cart-taken : (j : String) → find_cart s taken j ≡ find_cart s db j
    cart-taken j =
        (take_stock-rest s is (create_order db order_id o) j).0
        ∙ ap (λ t. t.carts j) (contents-create_order db order_id o)

    sold_db : sell s db id order_id o is now ≡ (update_cart taken id (mark_completed now), ok o)
    unfolding sell
    sold_db = rw (took, sell, cart-taken id ∙ here) refl

    sell_effect :
        let r = sell s db id order_id o is now in
        (r.1 ≡ ok o) × Sold db r.0 id order_id now cart o is
    sell_effect =
        let final = contents-update_cart taken id (mark_completed now) in
        let created = contents-create_order db order_id o in
        rw sold_db (
          refl,
          (
            (λ j.
                ap (λ t. t.orders j) final
                ∙ (take_stock-rest s is (create_order db order_id o) j).1
                ∙ ap (λ t. t.orders j) created),
            (λ j.
                ap (λ t. t.products j) final
                ∙ take_stock-stock s is (create_order db order_id o) j found
                ∙ ap (λ t. mapped (lowered (sold j is)) (t.products j)) created),
            (λ j. ap (λ t. t.carts j) final ∙ rw (cart-taken id, cart-taken j, here) refl),
          ),
        )

  Result-cases : (x : Result Sale) → ((o : Sale) × (x ≡ ok o)) ⊎ ((e : Error) × (x ≡ err e))
  Result-cases (ok o) = inl (o, refl)
  Result-cases (err e) = inr (e, refl)

  nonempty : {A : Type 0} (l : List A) → l ≢ [] → (x : A) × (xs : List A) × (l ≡ x ∷ xs)
  nonempty [] h = absurd (h refl)
  nonempty (x ∷ xs) h = (x, xs, refl)

  sell_items-ready :
      (db : Db) (user id order_id order_number : String) (cart : Cart)
      (is : List (CartItem × Product)) (now : ℕ)
      → is ≢ []
      → all_in_stock is ≡ true
      → sell_items s db user id order_id order_number cart is now
        ≡ sell s db id order_id (sale_of order_number user cart is) is now
  unfolding sell_items
  sell_items-ready db user id order_id order_number cart [] now filled stocked =
      absurd (filled refl)
  sell_items-ready db user id order_id order_number cart (i ∷ is) now filled stocked =
      rw (stocked, sell_items) refl

  -- What `createOrderFromCart` refuses changes nothing.
  sell_items-refused :
      (db : Db) (user id order_id order_number : String) (cart : Cart)
      (is : List (CartItem × Product)) (now : ℕ)
      → ((is ≢ []) × (all_in_stock is ≡ true))
        ⊎ ((e : Error) × (sell_items s db user id order_id order_number cart is now ≡ (db, err e)))
  unfolding sell_items
  sell_items-refused db user id order_id order_number cart [] now = inr (bad_request, refl)
  sell_items-refused db user id order_id order_number cart (i ∷ is) now =
      elim (Bool-cases (all_in_stock (i ∷ is))) [
        | inl e ↦ inl ((λ h. absurd cc), e)
        | inr e ↦ inr (bad_request, rw (e, sell_items) refl)
      ]

  module _ (db : Db) (user id order_id order_number : String) (now : ℕ) where
    abbrev pub call : Db × Result Sale
    call = create_order_from_cart s db user id order_id order_number now

    call-Ready :
        (cart : Cart) (is : List (CartItem × Product))
        → Ready db user id cart is
        → call ≡ sell s db id order_id (sale_of order_number user cart is) is now
    unfolding create_order_from_cart
    call-Ready cart is (here, owner, live, joined, filled, stocked) =
        rw (here, owner, live, joined, create_order_from_cart)
          (sell_items-ready db user id order_id order_number cart is now filled stocked)

    -- Either the cart can be sold, or the call throws and changes nothing.
    pub Ready-cases :
        ((cart : Cart) × (is : List (CartItem × Product)) × Ready db user id cart is)
        ⊎ ((e : Error) × (call ≡ (db, err e)))
    unfolding create_order_from_cart
    Ready-cases = elim (Option-cases (find_cart s db id)) [
      | inl e ↦ inr (not_found, rw (e, create_order_from_cart) refl)
      | inr (cart, e) ↦ elim (Bool-cases (is_text cart.user_id user)) [
        | inr f ↦ inr (not_found, rw (e, f, create_order_from_cart) refl)
        | inl f ↦ elim (Bool-cases (is_active_status cart.status)) [
          | inr g ↦ inr (not_found, rw (e, f, g, create_order_from_cart) refl)
          | inl g ↦ elim (Option-cases (with_products s db (cart_items db id))) [
            | inl h ↦ inr (record_missing, rw (e, f, g, h, create_order_from_cart) refl)
            | inr (is, h) ↦ elim (sell_items-refused db user id order_id order_number cart is now) [
              | inl (filled, stocked) ↦ inl (cart, is, (e, f, g, h, filled, stocked))
              | inr (x, refused) ↦ inr (x, rw (e, f, g, h, create_order_from_cart) refused)
            ]
          ]
        ]
      ]
    ]

    ok≢err : {o : Sale} {e : Error} → ok o ≡ err e → ⊥
    ok≢err h = cc

    pub Ready-effect :
        (cart : Cart) (is : List (CartItem × Product))
        → Ready db user id cart is
        → let o = sale_of order_number user cart is in
          (call.1 ≡ ok o) × Sold db call.0 id order_id now cart o is
    Ready-effect cart is ready =
        let o = sale_of order_number user cart is in
        subst (λ r. (r.1 ≡ ok o) × Sold db r.0 id order_id now cart o is)
          (sym (call-Ready cart is ready))
          (sell_effect db id order_id o is now cart ready.0
            (with_products-Joined s db (cart_items db id) is ready.3))
