-- ===== src/Cart/Checkout/Once.antt =====
-- A cart is sold once, from its stock (orders.service.ts, `createOrderFromCart`).
use mathlib.Core.Path.{subst}
use mash_backend.Prelude.{
  is_text, ℕ, ◌≡◌, ◌≢◌, refl, ap, sym, ◌∙◌, inl, inr, String, true, Option, some, List, [], ◌∷◌,
  arith, ◌===◌, ===_iff, ===_refl, string_eq, Bool-cases, All,
}
use mash_backend.Prelude.Int.{ℤ, pos, ◌-ℤ◌, ◌≤ℤ◌, pos_part, neg_part, int_laws}
use mash_backend.Cart.Types.{
  Product, Cart, CartItem, completed, Sale, Error, not_found, Result, ok, err,
}
use mash_backend.Prelude.Tables.{mapped}
use mash_backend.Cart.Database.{CartStore}
use mash_backend.Cart.Totals.{find_cart, find_product, with_products}
use mash_backend.Cart.Merging.Status.{HasStatus}
use mash_backend.Cart.Checkout.{
  is_active_status, all_in_stock, lowered, mark_completed, create_order_from_cart,
}
use mash_backend.Cart.Checkout.Stock.{sold, Joined, with_products-Joined}
use mash_backend.Cart.Checkout.Sales.{Ready, Ready-cases, Ready-effect}

-- No product stands in two items.
abbrev pub Distinct : List (CartItem × Product) → Type 0
Distinct [] = Unit
Distinct (i ∷ is) = All (λ x. x.0.product_id ≢ i.0.product_id) is × Distinct is

sold_none :
    (j : String) (is : List (CartItem × Product))
    → All (λ x. x.0.product_id ≢ j) is
    → sold j is ≡ pos 0
unfolding sold
sold_none j [] h = refl
sold_none j ((i, p) ∷ is) (differs, rest) =
    ground (arith, ===_iff i.product_id j, differs, sold_none j is rest)

stocked_head :
    (i : CartItem) (q : Product) (is : List (CartItem × Product))
    → all_in_stock ((i, q) ∷ is) ≡ true
    → (i.quantity ≤ℤ q.stock) × (all_in_stock is ≡ true)
unfolding all_in_stock
stocked_head i q is h = ground arith

stock_unique : {o : Option Product} {p q : Product} → o ≡ some p → o ≡ some q → p.stock ≡ q.stock
stock_unique h k = ground (arith, h, k)

lowered_nonneg : (x y : ℤ) → y ≤ℤ x → pos 0 ≤ℤ x -ℤ y
lowered_nonneg x y h = omega int_laws

module _ (s : CartStore) where
  open s use {Db, contents, cart_items}

  sold_le :
      (db : Db) (is : List (CartItem × Product)) (j : String) (p : Product)
      → Joined s db is
      → Distinct is
      → all_in_stock is ≡ true
      → find_product s db j ≡ some p
      → pos 0 ≤ℤ p.stock
      → sold j is ≤ℤ p.stock
  unfolding sold all_in_stock
  sold_le db [] j p joined distinct stocked found nonneg = nonneg
  sold_le db ((i, q) ∷ is) j p (here, joined) (apart, distinct) stocked found nonneg =
      let (enough, others) = stocked_head i q is stocked in
      elim (Bool-cases (i.product_id === j)) [
        | inr e ↦ rw e (sold_le db is j p joined distinct others found nonneg)
        | inl e ↦
            let same = (===_iff i.product_id j).0 e in
            let alone = sold_none j is (subst (λ k. All (λ x. x.0.product_id ≢ k) is) same apart) in
            let it = stock_unique (subst (λ k. find_product s db k ≡ some q) same here) found in
            rw (e, alone) (omega (int_laws, enough, ap pos_part it, ap neg_part it))
      ]

  module _ (db : Db) (user id order_id order_number : String) (now : ℕ) where
    abbrev sale : Db × Result Sale
    sale = create_order_from_cart s db user id order_id order_number now

    -- An order that was made had a cart to be made of.
    pub sold-Ready :
        {o : Sale}
        → sale.1 ≡ ok o
        → (cart : Cart) × (is : List (CartItem × Product)) × Ready s db user id cart is
    sold-Ready {o} h = elim (Ready-cases s db user id order_id order_number now) [
      | inl ready ↦ ready
      | inr (e, refused) ↦ absurd (wrong (sym h ∙ ap (λ r. r.1) refused))
    ]
      where
        wrong : {e : Error} → ok o ≡ err e → ⊥
        wrong h = cc

    pub sold-completed : {o : Sale} → sale.1 ≡ ok o → HasStatus completed (find_cart s sale.0 id)
    unfolding mark_completed
    sold-completed h =
        let (cart, is, ready) = sold-Ready h in
        let (_, (_, _, carts)) =
          Ready-effect s db user id order_id order_number now cart is ready in
        (mark_completed now cart, carts id ∙ rw (===_refl id) refl, refl)

    -- A cart of distinct products that becomes an order takes no stock below zero.
    pub sold_nonneg :
        {o : Sale}
        → ((is : List (CartItem × Product))
            → with_products s db (cart_items db id) ≡ some is
            → Distinct is)
        → sale.1 ≡ ok o
        → (j : String) (p p' : Product) → find_product s db j ≡ some p
        → pos 0 ≤ℤ p.stock
        → find_product s sale.0 j ≡ some p'
        → pos 0 ≤ℤ p'.stock
    unfolding lowered
    sold_nonneg distinct h j p p' found nonneg after =
        let (cart, is, ready) = sold-Ready h in
        let (_, (_, products, _)) =
          Ready-effect s db user id order_id order_number now cart is ready in
        let le =
          sold_le db is j p (with_products-Joined s db (cart_items db id) is ready.3)
            (distinct is ready.3) ready.5 found nonneg in
        let it : (lowered (sold j is) p).stock ≡ p'.stock =
          stock_unique (products j ∙ ap (mapped (lowered (sold j is))) found) after in
        subst (λ x. pos 0 ≤ℤ x) it (lowered_nonneg p.stock (sold j is) le)

  -- A cart that is not active is not sold.
  pub completed-refused :
      (db : Db) (user id order_id order_number : String) (now : ℕ)
      → HasStatus completed (find_cart s db id)
      → create_order_from_cart s db user id order_id order_number now ≡ (db, err not_found)
  unfolding create_order_from_cart
  completed-refused db user id order_id order_number now (c, found, status) =
      let off = ap is_active_status status in
      elim (Bool-cases (is_text c.user_id user)) [
        | inl e ↦ rw (found, e, off, create_order_from_cart) refl
        | inr e ↦ rw (found, e, create_order_from_cart) refl
      ]

  -- Once a cart has become an order, every further call for it throws and changes nothing.
  pub sold_once :
      (db : Db) (user id order_id order_number : String) (now : ℕ) (o : Sale)
      → let r = create_order_from_cart s db user id order_id order_number now in
        r.1 ≡ ok o
        → (user' order_id' order_number' : String) (now' : ℕ)
        → create_order_from_cart s r.0 user' id order_id' order_number' now' ≡ (r.0, err not_found)
  sold_once db user id order_id order_number now o h user' order_id' order_number' now' =
      completed-refused _ user' id order_id' order_number' now'
        (sold-completed db user id order_id order_number now h)
