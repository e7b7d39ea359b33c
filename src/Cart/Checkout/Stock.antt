-- ===== src/Cart/Checkout/Stock.antt =====
-- What an order made of a cart does to the stock (orders.service.ts, `createOrderFromCart`).
use mathlib.Core.Path.{subst}
use mash_backend.Prelude.{
  ◌≡◌, ◌≢◌, refl, ap, sym, ◌∙◌, inl, inr, String, true, Option, none, some, List, [], ◌∷◌, arith,
  ◌===◌, ===_iff, if◌then◌else◌, string_eq, Bool-cases, Option-cases, All,
}
use mash_backend.Prelude.Int.{ℤ, pos, ◌+ℤ◌, ◌-ℤ◌, int_laws}
use mash_backend.Cart.Types.{Product, CartItem}
use mash_backend.Prelude.Tables.{mapped}
use mash_backend.Cart.Database.{CartStore}
use mash_backend.Cart.Totals.{find_cart, find_product, with_products}
use mash_backend.Cart.Checkout.{lowered, take_stock}

-- How much of a product the items hold together.
unfoldable pub sold : String → List (CartItem × Product) → ℤ
unfolding ◌+ℤ◌
sold j [] = pos 0
sold j ((i, _) ∷ is) = if i.product_id === j then i.quantity +ℤ sold j is else sold j is

lowered_none : (o : Option Product) → mapped (lowered (pos 0)) o ≡ o
unfolding lowered
lowered_none none = refl
lowered_none (some p) = ap (λ x. some (record p { stock = x })) (nothing p.stock)
  where
    nothing : (x : ℤ) → x -ℤ pos 0 ≡ x
    nothing x = omega int_laws

lowered_twice :
    (m n : ℤ) (o : Option Product)
    → mapped (lowered n) (mapped (lowered m) o) ≡ mapped (lowered (m +ℤ n)) o
unfolding lowered
lowered_twice m n none = refl
lowered_twice m n (some p) = ap (λ x. some (record p { stock = x })) (twice p.stock)
  where
    twice : (x : ℤ) → x -ℤ m -ℤ n ≡ x -ℤ (m +ℤ n)
    twice x = omega int_laws

unwrap : {x y : List (CartItem × Product)} → some x ≡ some y → x ≡ y
unwrap h = cc

module _ (s : CartStore) where
  open s use {Db, contents, update_product, contents-update_product}

  -- The products of the items are there.
  abbrev pub AllFound : Db → List (CartItem × Product) → Type 0
  AllFound db is = All (λ i. find_product s db i.0.product_id ≢ none) is

  -- The products that the items were joined with are those in the table.
  abbrev pub Joined : Db → List (CartItem × Product) → Type 0
  Joined db is = All (λ i. find_product s db i.0.product_id ≡ some i.1) is

  pub with_products-Joined :
      (db : Db) (l : List (String × CartItem)) (is : List (CartItem × Product))
      → with_products s db l ≡ some is
      → Joined db is
  unfolding with_products
  with_products-Joined db [] [] h = tt
  with_products-Joined db [] (i ∷ is) h = absurd cc
  with_products-Joined db ((id, i) ∷ l) is h =
      elim (Option-cases (find_product s db i.product_id)) [
        | inl e ↦ absurd (ground (arith, e, h))
        | inr (p, e) ↦ elim (Option-cases (with_products s db l)) [
          | inl f ↦ absurd (ground (arith, e, f, h))
          | inr (ps, f) ↦
              let same : with_products s db ((id, i) ∷ l) ≡ some ((i, p) ∷ ps) =
                rw (e, f, with_products) refl in
              subst (Joined db) (unwrap (sym same ∙ h)) (e, with_products-Joined db l ps f)
        ]
      ]

  pub Joined-AllFound : (db : Db) (is : List (CartItem × Product)) → Joined db is → AllFound db is
  Joined-AllFound db [] h = tt
  Joined-AllFound db (i ∷ is) h =
      ((λ e. absurd (ground (arith, h.0, e))), Joined-AllFound db is h.1)

  product-update_product :
      (db : Db) (id j : String) (f : Product → Product)
      → find_product s (update_product db id f) j
        ≡ (if id === j then mapped f (find_product s db id) else find_product s db j)
  product-update_product db id j f = ap (λ t. t.products j) (contents-update_product db id f)

  update-AllFound :
      (db : Db) (id : String) (f : Product → Product) (is : List (CartItem × Product))
      → AllFound db is
      → AllFound (update_product db id f) is
  update-AllFound db id f [] h = tt
  update-AllFound db id f ((i, p) ∷ is) h = ((λ e. h.0 (lost e)), update-AllFound db id f is h.1)
    where
      lost :
          find_product s (update_product db id f) i.product_id ≡ none
          → find_product s db i.product_id ≡ none
      lost e = ground (arith, product-update_product db id i.product_id f, ===_iff id i.product_id)

  abbrev after_item : CartItem → Db → Db
  after_item i db = update_product db i.product_id (lowered i.quantity)

  pub take_stock_done :
      (is : List (CartItem × Product)) (db : Db) → AllFound db is → (take_stock s db is).1 ≡ true
  unfolding take_stock
  take_stock_done [] db h = refl
  take_stock_done ((i, q) ∷ is) db h = elim (Option-cases (find_product s db i.product_id)) [
    | inl e ↦ absurd (h.0 e)
    | inr (p, e) ↦
        rw (e, take_stock)
          (take_stock_done is (after_item i db) (update-AllFound db i.product_id _ is h.1))
  ]

  item-stock :
      (i : CartItem) (p : Product) (is : List (CartItem × Product)) (db : Db) (j : String)
      → mapped (lowered (sold j is)) (find_product s (after_item i db) j)
        ≡ mapped (lowered (sold j ((i, p) ∷ is))) (find_product s db j)
  unfolding sold
  item-stock i p is db j = elim (Bool-cases (i.product_id === j)) [
    | inl e ↦
        rw (product-update_product db i.product_id j (lowered i.quantity), e)
          (lowered_twice i.quantity (sold j is) (find_product s db i.product_id)
            ∙ ap (λ k. mapped (lowered (i.quantity +ℤ sold j is)) (find_product s db k))
                ((===_iff i.product_id j).0 e))
    | inr e ↦ rw (product-update_product db i.product_id j (lowered i.quantity), e) refl
  ]

  -- Every stock falls by what the items hold of its product, and no cart and no order changes.
  pub take_stock-stock :
      (is : List (CartItem × Product)) (db : Db) (j : String)
      → AllFound db is
      → find_product s (take_stock s db is).0 j ≡ mapped (lowered (sold j is)) (find_product s db j)
  unfolding take_stock sold
  take_stock-stock [] db j h = sym (lowered_none (find_product s db j))
  take_stock-stock ((i, q) ∷ is) db j h = elim (Option-cases (find_product s db i.product_id)) [
    | inl e ↦ absurd (h.0 e)
    | inr (p, e) ↦
        rw (e, take_stock)
          (take_stock-stock is (after_item i db) j (update-AllFound db i.product_id _ is h.1)
            ∙ item-stock i q is db j)
  ]

  pub take_stock-rest :
      (is : List (CartItem × Product)) (db : Db) (j : String)
      → (find_cart s (take_stock s db is).0 j ≡ find_cart s db j)
        × ((contents (take_stock s db is).0).orders j ≡ (contents db).orders j)
  unfolding take_stock
  take_stock-rest [] db j = (refl, refl)
  take_stock-rest ((i, q) ∷ is) db j = elim (Option-cases (find_product s db i.product_id)) [
    | inl e ↦ rw (e, take_stock) (refl, refl)
    | inr (p, e) ↦
        let (carts, orders) = take_stock-rest is (after_item i db) j in
        let same = contents-update_product db i.product_id (lowered i.quantity) in
        rw (e, take_stock) (carts ∙ ap (λ t. t.carts j) same, orders ∙ ap (λ t. t.orders j) same)
  ]
