-- ===== src/Cart/Limits.antt =====
-- How much of a product a line of a cart may hold after `addItem` and `updateItem` (cart.service.ts).
use mathlib.Core.Path.{subst}
use mash_backend.Prelude.{
  ℕ, ◌≡◌, refl, ap, sym, ◌∙◌, inl, inr, String, true, false, Option, none, some, arith, ===_iff,
  ===_refl, string_eq, Bool-cases, Option-cases,
}
use mash_backend.Prelude.Int.{ℤ, pos, ◌+ℤ◌, ◌≤ℤ◌, ltb_ℤ, times}
use mash_backend.Cart.Types.{Cart, CartItem, Product, Result, ok, err}
use mash_backend.Cart.Database.{CartStore}
use mash_backend.Cart.Shipping.{ShippingAddress, ShippingMethod}
use mash_backend.Cart.Totals.{
  AddToCartDto, calculate_totals, update_item_quantity, and_then, put_line, add_line, new_item,
  with_quantity, max_qty, find_cart, find_item, find_product, with_products,
}

module _ (s : CartStore) where
  open s use {
    Db, contents, cart_items, item_of, create_item, update_item, update_cart, contents-update_cart,
    contents-create_item, contents-update_item, item_of-found,
  }

  -- The line of the product holds `q` of it, at that price, no more than there is and than is allowed.
  abbrev pub Holds : Db → String → String → Product → ℤ → ℕ → Type 0
  Holds db c j p q price =
      (id : String) × (i : CartItem) × (find_item s db id ≡ some i)
      × (i.cart_id ≡ c)
      × (i.product_id ≡ j)
      × (i.quantity ≡ q)
      × (i.price ≡ price)
      × (i.subtotal ≡ times price q)
      × (q ≤ℤ p.stock)
      × (q ≤ℤ max_qty p)

  item-update_cart :
      (db : Db) (c : String) (f : Cart → Cart) (id : String)
      → find_item s (update_cart db c f) id ≡ find_item s db id
  item-update_cart db c f id = ap (λ t. t.items id) (contents-update_cart db c f)

  item-create_item :
      (db : Db) (id : String) (i : CartItem) → find_item s (create_item db id i) id ≡ some i
  item-create_item db id i =
      ap (λ t. t.items id) (contents-create_item db id i) ∙ rw (===_refl id) refl

  pub item-calculate_totals :
      (db : Db) (c : String) (a : Option ShippingAddress) (m : Option ShippingMethod) (now : ℕ)
      (id : String)
      → find_item s (calculate_totals s db c a m now).0 id ≡ find_item s db id
  unfolding calculate_totals
  item-calculate_totals db c a m now id = elim (Option-cases (find_cart s db c)) [
    | inl e ↦ rw (e, calculate_totals) refl
    | inr (k, e) ↦ elim (Option-cases (with_products s db (cart_items db c))) [
      | inl f ↦ rw (e, f, calculate_totals) refl
      | inr (is, f) ↦ rw (e, f, calculate_totals) (item-update_cart db c _ id)
    ]
  ]

  pub item-update_item_quantity :
      (db : Db) (c id : String) (q : ℤ) (custom : Option String) (now : ℕ) {i : CartItem}
      → find_item s db id ≡ some i
      → find_item s (update_item_quantity s db c id q custom now).0 id
        ≡ some (with_quantity q custom i i)
  unfolding update_item_quantity
  item-update_item_quantity db c id q custom now {i} e =
      rw (e, update_item_quantity)
        (item-calculate_totals _ c none none now id
          ∙ (ground (arith, contents-update_item db id (with_quantity q custom i), ===_iff id id)))

  -- What a longer line holds, or a new one.
  abbrev pub held : Option (String × CartItem) → ℕ → ℤ
  held none q = pos q
  held (some (_, i)) q = i.quantity +ℤ pos q

  abbrev pub priced : Option (String × CartItem) → ℕ → ℕ
  priced none price = price
  priced (some (_, i)) price = i.price

  put_line-Holds :
      (db : Db) (c : String) (dto : AddToCartDto) (p : Product) (new_id : String) (now : ℕ)
      → ltb_ℤ p.stock (pos dto.quantity) ≡ false
      → ltb_ℤ (max_qty p) (pos dto.quantity) ≡ false
      → (put_line s db c dto p new_id now).1 ≡ ok tt
      → Holds
          (put_line s db c dto p new_id now).0
          c
          dto.product_id
          p
          (held (item_of db c dto.product_id) dto.quantity)
          (priced (item_of db c dto.product_id) p.price)
  unfolding put_line new_item with_quantity
  put_line-Holds db c dto p new_id now enough allowed h =
      elim (Option-cases (item_of db c dto.product_id)) [
        | inl e ↦
            rw (e, put_line)
              (
                new_id,
                new_item c dto p,
                item-create_item db new_id (new_item c dto p),
                refl,
                refl,
                refl,
                refl,
                refl,
                ground arith,
                ground arith,
              )
        | inr ((id, i), e) ↦
            elim (Bool-cases (ltb_ℤ (max_qty p) (i.quantity +ℤ pos dto.quantity))) [
              | inl over ↦ absurd (ground (arith, e, over, h))
              | inr fits ↦ elim (Bool-cases (ltb_ℤ p.stock (i.quantity +ℤ pos dto.quantity))) [
                | inl over ↦ absurd (ground (arith, e, fits, over, h))
                | inr stocked ↦
                    let (found, here, same) = item_of-found db c dto.product_id e in
                    rw (e, fits, stocked, put_line)
                      (
                        id,
                        with_quantity (i.quantity +ℤ pos dto.quantity) none i i,
                        item-update_item_quantity db c id _ none now found,
                        here,
                        same,
                        refl,
                        refl,
                        refl,
                        ground (arith, stocked),
                        ground (arith, fits),
                      )
              ]
            ]
      ]

  Holds-calculate_totals :
      (db : Db) (c j : String) (p : Product) (q : ℤ) (price : ℕ) (a : Option ShippingAddress)
      (m : Option ShippingMethod) (now : ℕ)
      → Holds db c j p q price
      → Holds (calculate_totals s db c a m now).0 c j p q price
  Holds-calculate_totals db c j p q price a m now h =
      (h.0, h.1, item-calculate_totals db c a m now h.0 ∙ h.2, h.3, h.4, h.5, h.6, h.7, h.8, h.9)

  and_then_ok :
      (x : Db × Result (Unit {0})) (next : Db → Db × Result (Unit {0}))
      → (and_then s x next).1 ≡ ok tt
      → (x.1 ≡ ok tt) × (and_then s x next ≡ next x.0)
  and_then_ok (db, ok _) next h = (refl, refl)
  and_then_ok (db, err e) next h = absurd cc

  -- `addItem` that does not throw leaves a line of the product in the cart with what was in it and what was added,
  -- no more than the stock and than the most that is allowed, at the price that the line has
  -- had from its start: that of the product for a new line.
  pub add_line-Holds :
      (db : Db) (c : String) (dto : AddToCartDto) (new_id : String) (now : ℕ)
      → let r = add_line s db c dto new_id now in
        let line = item_of db c dto.product_id in
        r.1 ≡ ok tt
        → (p : Product) × (find_product s db dto.product_id ≡ some p)
          × (p.is_active ≡ true)
          × Holds r.0 c dto.product_id p (held line dto.quantity) (priced line p.price)
  unfolding add_line
  add_line-Holds db c dto new_id now h = elim (Option-cases (find_product s db dto.product_id)) [
    | inl e ↦ absurd (ground (arith, e, h))
    | inr (p, e) ↦ elim (Bool-cases p.is_active) [
      | inr off ↦ absurd (ground (arith, e, off, h))
      | inl on ↦ elim (Bool-cases (ltb_ℤ p.stock (pos dto.quantity))) [
        | inl over ↦ absurd (ground (arith, e, on, over, h))
        | inr enough ↦ elim (Bool-cases (ltb_ℤ (max_qty p) (pos dto.quantity))) [
          | inl over ↦ absurd (ground (arith, e, on, enough, over, h))
          | inr allowed ↦
              let put = put_line s db c dto p new_id now in
              let total = λ (db' : Db). calculate_totals s db' c none none now in
              let same : add_line s db c dto new_id now ≡ and_then s put total =
                rw (e, on, enough, allowed, add_line) refl in
              let (placed, left) = and_then_ok put total (ap (λ r. r.1) (sym same) ∙ h) in
              let line = item_of db c dto.product_id in
              (
                p,
                e,
                on,
                subst
                    (λ r.
                      Holds r.0 c dto.product_id p (held line dto.quantity) (priced line p.price))
                    (sym (same ∙ left))
                    (Holds-calculate_totals put.0 c dto.product_id p (held line dto.quantity)
                      (priced line p.price) none none now
                      (put_line-Holds db c dto p new_id now enough allowed placed)),
              )
        ]
      ]
    ]
  ]
