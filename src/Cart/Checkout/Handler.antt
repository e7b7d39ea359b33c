-- ===== src/Cart/Checkout/Handler.antt =====
-- The order that `checkout` of cart.controller.ts makes of a cart has its totals, and what the cache makes of
-- a cart that is sold.
use mathlib.Core.Path.{subst}
use mash_backend.Prelude.{
  ℕ, ◌≡◌, ◌≢◌, refl, ap, sym, ◌∙◌, ◌⊎◌, inl, inr, String, Option, none, some, List, arith, ===_iff,
  string_eq,
}
use mash_backend.Prelude.Int.{pos, ◌+ℤ◌, ◌-ℤ◌}
use mash_backend.RateLimit.Redis.{Client}
use mash_backend.Cart.Types.{
  Product, Cart, CartItem, completed, Sale, Error, not_found, Result, ok, err,
}
use mash_backend.Cart.Database.{CartStore, by_user}
use mash_backend.Cart.Shipping.{ShippingAddress, ShippingMethod, calculate_shipping}
use mash_backend.Cart.Totals.{
  find_cart, with_products, calculate_totals, rate_for, shipping_for, tax_on, subtotal_of,
  get_tax_rate, total_weight, method_or_standard,
}
use mash_backend.Cart.Balance.{calculate_totals_effect}
use mash_backend.Cart.Cache.{CartResponse, get_or_create_cart, key_of, get_cart}
use mash_backend.Cart.Merging.Status.{HasStatus, HasStatus-calculate_totals}
use mash_backend.Cart.Checkout.{
  sale_of, create_order_from_cart, checkout_cart, checkout_found, checkout,
}
use mash_backend.Cart.Checkout.Sales.{Ready-effect}
use mash_backend.Cart.Checkout.Once.{sold-Ready, sold-completed, completed-refused}

key-user : (user : String) → user ≢ "" → key_of (some user) none ≡ some (by_user user)
unfolding key_of
key-user user named = ground (arith, ===_iff user "", named)

unwrap : {a b : Cart} → some a ≡ some b → a ≡ b
unwrap h = cc

sale_unwrap : {a b : Sale} → ok a ≡ ok b → a ≡ b
sale_unwrap h = cc

Done-cases : (x : Result (Unit {0})) → (x ≡ ok tt) ⊎ ((e : Error) × (x ≡ err e))
Done-cases (ok tt) = inl refl
Done-cases (err e) = inr (e, refl)

module _ (s : CartStore) where
  open s use {Db, cart_items}

  Joined-unique :
      (db : Db) (id : String) {c c' : Cart}
      → find_cart s db id ≡ some c
      → find_cart s db id ≡ some c'
      → c ≡ c'
  Joined-unique db id h k = unwrap (sym h ∙ k)

  module _ (db : Db) (user id : String) (a : ShippingAddress) (m : Option ShippingMethod)
      (order_id order_number : String) (now : ℕ) where
    abbrev totalled : Db × Result (Unit {0})
    totalled = calculate_totals s db id (some a) m now

    checkout_cart_step :
        totalled.1 ≡ ok tt
        → checkout_cart s db user id a m order_id order_number now
          ≡ create_order_from_cart s totalled.0 user id order_id order_number now
    unfolding checkout_cart
    checkout_cart_step fine = rw (fine, checkout_cart) refl

    checkout_cart_failed :
        {e : Error} {o : Sale}
        → totalled.1 ≡ err e
        → (checkout_cart s db user id a m order_id order_number now).1 ≡ ok o
        → ⊥
    unfolding checkout_cart
    checkout_cart_failed bad h = ground (arith, bad, h)

    -- An order that `checkout` makes of a cart has the totals of the cart's items: their sum, the tax at the
    -- rate for the address, the cost of shipping them there, and all of it less the discount.
    pub checkout_cart-Balanced :
        (o : Sale)
        → (checkout_cart s db user id a m order_id order_number now).1 ≡ ok o
        → (is : List (CartItem × Product)) × (with_products s db (cart_items db id) ≡ some is)
          × (o.subtotal ≡ subtotal_of (cart_items totalled.0 id))
          × (o.tax ≡ tax_on (get_tax_rate a.region) o.subtotal)
          × (o.shipping ≡ pos (calculate_shipping (total_weight is) a (method_or_standard m)))
          × (o.total ≡ o.subtotal +ℤ o.tax +ℤ o.shipping -ℤ pos o.discount)
          × (o.payment_amount ≡ o.total)
    unfolding sale_of rate_for shipping_for
    checkout_cart-Balanced o h = elim (Done-cases totalled.1) [
      | inr (e, bad) ↦ absurd (checkout_cart_failed bad h)
      | inl fine ↦
          let (is, joined, (c, here, subtotal, tax, shipping, total)) =
            (calculate_totals_effect s db id (some a) m now).0 fine in
          let sold : (create_order_from_cart s totalled.0 user id order_id order_number now).1
              ≡ ok o =
            subst (λ x. x.1 ≡ ok o) (checkout_cart_step fine) h in
          let (cart, items, ready) =
            sold-Ready s totalled.0 user id order_id order_number now sold in
          let made =
            (Ready-effect s totalled.0 user id order_id order_number now cart items ready).0 in
          let same : sale_of order_number user c items ≡ o =
            ap (λ k. sale_of order_number user k items) (Joined-unique totalled.0 id here ready.0)
            ∙ sale_unwrap (sym made ∙ sold) in
          subst
            (λ o.
              (is : List (CartItem × Product)) × (with_products s db (cart_items db id) ≡ some is)
              × (o.subtotal ≡ subtotal_of (cart_items totalled.0 id))
              × (o.tax ≡ tax_on (get_tax_rate a.region) o.subtotal)
              × (o.shipping ≡ pos (calculate_shipping (total_weight is) a (method_or_standard m)))
              × (o.total ≡ o.subtotal +ℤ o.tax +ℤ o.shipping -ℤ pos o.discount)
              × (o.payment_amount ≡ o.total))
            same (is, joined, subtotal, tax, shipping, total, refl)
    ]

    completed-not_sold :
        (o : Sale)
        → HasStatus completed (find_cart s db id)
        → (checkout_cart s db user id a m order_id order_number now).1 ≢ ok o
    completed-not_sold o done h = elim (Done-cases totalled.1) [
      | inr (e, bad) ↦ checkout_cart_failed bad h
      | inl fine ↦
          let still = HasStatus-calculate_totals s db id id (some a) m now completed done in
          wrong (
            sym (
              ap (λ x. x.1)
                (checkout_cart_step fine
                  ∙ completed-refused s totalled.0 user id order_id order_number now still))
            ∙ h)
    ]
      where
        wrong : err not_found ≡ ok o → ⊥
        wrong h = cc

module _ (s : CartStore) (r : Client CartResponse) where
  open s use {Db, cart_items}
  open r use {Conn}

  cached_answer :
      (db : Db) (c : Conn) (user new_id : String) (now : ℕ) {cached : CartResponse}
      → user ≢ ""
      → get_cart s r c (by_user user) now ≡ some cached
      → get_or_create_cart s r (db, c) (some user) none new_id now ≡ ((db, c), ok cached)
  unfolding get_or_create_cart
  cached_answer db c user new_id now {cached} named h =
      let key : key_of (some user) none ≡ some (by_user user) = key-user user named in
      rw (key, h, get_or_create_cart) refl

  -- The sale of a cart leaves the cache alone, and a cache that has that cart stays with it: the user's next
  -- request still gets the sold cart, which is `COMPLETED`, and until the cache drops it every further
  -- `checkout` throws.
  pub sold-cached :
      (db : Db) (c : Conn) (user order_id order_number : String) (now : ℕ) (o : Sale)
      (cached : CartResponse)
      → user ≢ ""
      → let r' = create_order_from_cart s db user cached.id order_id order_number now in
        r'.1 ≡ ok o
        → (later : ℕ) → get_cart s r c (by_user user) later ≡ some cached
        → (new_id : String)
        → (get_or_create_cart s r (r'.0, c) (some user) none new_id later ≡ ((r'.0, c), ok cached))
          × HasStatus completed (find_cart s r'.0 cached.id)
          × ((a : ShippingAddress) (m : Option ShippingMethod) (order_id' order_number' : String)
                (o' : Sale)
              → (checkout s r (r'.0, c) user a m new_id order_id' order_number' later).1 ≢ ok o')
  unfolding checkout checkout_found
  sold-cached db c user order_id order_number now o cached named h later held new_id =
      let done = sold-completed s db user cached.id order_id order_number now h in
      let db' = (create_order_from_cart s db user cached.id order_id order_number now).0 in
      let same = cached_answer db' c user new_id later named held in
      (
        same,
        done,
        (λ a m order_id' order_number' o'.
            subst (λ x. (checkout_found s r x user a m order_id' order_number' later).1 ≢ ok o')
              (sym same)
              (completed-not_sold s db' user cached.id a m order_id' order_number' later o' done)),
      )
