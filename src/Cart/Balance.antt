-- ===== src/Cart/Balance.antt =====
-- The totals of a cart after the handlers that change its items (cart.service.ts).
use mathlib.Core.Path.{subst}
use mash_backend.Prelude.{
  ℕ, ◌≡◌, ◌≢◌, refl, ap, sym, ◌∙◌, ◌↔◌, inl, inr, String, Bool, true, false, not, Option, none,
  some, List, [], arith, ◌===◌, ===_iff, if◌then◌else◌, string_eq, Option-cases,
}
use mash_backend.Prelude.Int.{ℤ, pos, ◌+ℤ◌, ◌-ℤ◌, ltb_ℤ, pos_part, neg_part, int_laws}
use mash_backend.Cart.Types.{Cart, CartItem, Product, Error, Result, ok, err, bad_request}
use mash_backend.Cart.Database.{CartStore}
use mash_backend.Cart.Shipping.{ShippingAddress, ShippingMethod}
use mash_backend.Cart.Totals.{
  AddToCartDto, UpdateCartItemDto, tax_on, subtotal_of, rate_for, shipping_for, with_totals,
  with_products, calculate_totals, update_item_quantity, and_then, put_line, add_line, change_line,
  remove_line, cleared, clear_lines, max_qty, find_cart, find_item, find_product,
}
pub mod Charged

unwrap : {a b : Cart} → some a ≡ some b → a ≡ b
unwrap h = cc

no_shipping : (x : ℤ) → pos 0 ≡ pos 0 +ℤ pos 0 +ℤ x -ℤ pos 0 → x ≡ pos 0
no_shipping x h = omega (int_laws, ap pos_part h, ap neg_part h)

cleared_total : (x : ℤ) → x ≡ pos 0 → pos 0 ≡ pos 0 +ℤ pos 0 +ℤ x -ℤ pos 0
unfolding ◌+ℤ◌ ◌-ℤ◌
cleared_total x h = rw h refl

-- A cleared cart whose total is that of its parts had no cost of shipping.
cleared-shipping :
    (c k : Cart) (now : ℕ)
    → k ≡ cleared now c
    → k.total ≡ k.subtotal +ℤ k.tax +ℤ k.shipping -ℤ pos k.discount
    → c.shipping ≡ pos 0
unfolding cleared
cleared-shipping c k now h total =
    no_shipping c.shipping
      (subst (λ r. r.total ≡ r.subtotal +ℤ r.tax +ℤ r.shipping -ℤ pos r.discount) h total)

module _ (s : CartStore) where
  open s use {
    Db, contents, cart_items, update_cart, delete_items, contents-update_cart,
    contents-delete_items, cart_items-update_cart, cart_items-delete_items,
  }

  -- The cart's totals are those of its items, at the rate, with that cost of shipping.
  abbrev pub Balanced : ℕ → ℤ → String → Db → Type 0
  Balanced rate shipping id db =
      (c : Cart) × (find_cart s db id ≡ some c)
      × (c.subtotal ≡ subtotal_of (cart_items db id))
      × (c.tax ≡ tax_on rate c.subtotal)
      × (c.shipping ≡ shipping)
      × (c.total ≡ c.subtotal +ℤ c.tax +ℤ c.shipping -ℤ pos c.discount)

  -- `P` of the database that a call leaves, unless the call throws.
  abbrev pub Done : (Db → Type 0) → Db × Result (Unit {0}) → Type 0
  Done P r = r.1 ≡ ok tt → P r.0

  find-update_cart :
      (db : Db) (id : String) (f : Cart → Cart) {c : Cart}
      → find_cart s db id ≡ some c
      → find_cart s (update_cart db id f) id ≡ some (f c)
  find-update_cart db id f h = ground (arith, contents-update_cart db id f, ===_iff id id)

  calculate_totals_at :
      (db : Db) (id : String) (a : Option ShippingAddress) (m : Option ShippingMethod) (now : ℕ)
      {c : Cart} {is : List (CartItem × Product)}
      → find_cart s db id ≡ some c
      → with_products s db (cart_items db id) ≡ some is
      → Balanced (rate_for a) (shipping_for is a m) id (calculate_totals s db id a m now).0
  unfolding calculate_totals with_totals
  calculate_totals_at db id a m now {c} {is} found joined =
      let items = subtotal_of (cart_items db id) in
      let f = with_totals items (tax_on (rate_for a) items) (shipping_for is a m) now c in
      rw (found, joined, calculate_totals)
        (
          f c,
          find-update_cart db id f found,
          ap subtotal_of (sym (cart_items-update_cart db id id f)),
          refl,
          refl,
          refl,
        )

  -- `calculateTotals` throws exactly where the cart, or the product of one of its items, is missing, and
  -- changes nothing then. Otherwise it leaves the cart with the totals of its items: the tax at the
  -- rate for the address, and the cost of shipping there, or none without an address.
  pub calculate_totals_effect :
      (db : Db) (id : String) (a : Option ShippingAddress) (m : Option ShippingMethod) (now : ℕ)
      → let r = calculate_totals s db id a m now in
        (Done
          (λ db'.
            (is : List (CartItem × Product)) × (with_products s db (cart_items db id) ≡ some is)
            × Balanced (rate_for a) (shipping_for is a m) id db')
          r)
        × (r.1 ≢ ok tt → r.0 ≡ db)
        × ((r.1 ≡ ok tt)
            ↔ ((find_cart s db id ≢ none) × (with_products s db (cart_items db id) ≢ none)))
  unfolding calculate_totals
  calculate_totals_effect db id a m now = elim (Option-cases (find_cart s db id)) [
    | inl e ↦
        rw (e, calculate_totals)
          ((λ h. absurd (cc)), (λ h. refl), ((λ h. absurd (cc)), (λ h. absurd (h.0 refl))))
    | inr (c, found) ↦ elim (Option-cases (with_products s db (cart_items db id))) [
      | inl e ↦
          rw (found, e, calculate_totals)
            ((λ h. absurd (cc)), (λ h. refl), ((λ h. absurd (cc)), (λ h. absurd (h.1 refl))))
      | inr (is, joined) ↦ (
        (λ h. (is, joined, calculate_totals_at db id a m now found joined)),
        rw (found, joined, calculate_totals) (λ h. absurd (h refl)),
        rw (found, joined, calculate_totals) ((λ h. ((λ x. cc), (λ x. cc))), (λ h. refl)),
      )
    ]
  ]

  -- One call of a handler that changes the items of a cart.
  pub data LineCall : Type 0 where
    adding : AddToCartDto → String → LineCall
    changing : String → UpdateCartItemDto → LineCall
    removing : String → LineCall

  unfoldable pub run : LineCall → Db → String → ℕ → Db × Result (Unit {0})
  unfolding add_line change_line remove_line
  run (adding dto new_id) db c now = add_line s db c dto new_id now
  run (changing id dto) db c now = change_line s db c id dto now
  run (removing id) db c now = remove_line s db c id now

  module _ (c : String) (now : ℕ) where
    abbrev AtHome : Db × Result (Unit {0}) → Type 0
    AtHome r = Done (Balanced 12 (pos 0) c) r

    plain-AtHome : (db : Db) → AtHome (calculate_totals s db c none none now)
    unfolding rate_for shipping_for
    plain-AtHome db h = ((calculate_totals_effect db c none none now).0 h).2

    update_item_quantity-AtHome :
        (db : Db) (id : String) (q : ℤ) (custom : Option String)
        → AtHome (update_item_quantity s db c id q custom now)
    unfolding update_item_quantity
    update_item_quantity-AtHome db id q custom = elim (Option-cases (find_item s db id)) [
      | inl e ↦ rw (e, update_item_quantity) (λ h. absurd (cc))
      | inr (i, e) ↦ rw (e, update_item_quantity) (plain-AtHome _)
    ]

    and_then-AtHome :
        (x : Db × Result (Unit {0}))
        → AtHome (and_then s x (λ db. calculate_totals s db c none none now))
    and_then-AtHome (db, ok _) h = plain-AtHome db h
    and_then-AtHome (db, err e) h = absurd cc

    guarded-AtHome :
        (b : Bool) (e : Error) (db : Db) (r : Db × Result (Unit {0}))
        → AtHome r
        → AtHome (if b then (db, err e) else r)
    guarded-AtHome true e db r h = λ k. absurd cc
    guarded-AtHome false e db r h = h

    add_line-AtHome :
        (db : Db) (dto : AddToCartDto) (new_id : String) → AtHome (add_line s db c dto new_id now)
    unfolding add_line
    add_line-AtHome db dto new_id = elim (Option-cases (find_product s db dto.product_id)) [
      | inl e ↦ rw (e, add_line) (λ h. absurd (cc))
      | inr (p, e) ↦
          rw (e, add_line)
            (guarded-AtHome (not p.is_active) bad_request db _ (
              guarded-AtHome (ltb_ℤ p.stock (pos dto.quantity)) bad_request db _ (
                guarded-AtHome (ltb_ℤ (max_qty p) (pos dto.quantity)) bad_request db _
                  (and_then-AtHome (put_line s db c dto p new_id now)))))
    ]

    change_line-AtHome :
        (db : Db) (id : String) (dto : UpdateCartItemDto) → AtHome (change_line s db c id dto now)
    unfolding change_line
    change_line-AtHome db id dto = elim (Option-cases (find_item s db id)) [
      | inl e ↦ rw (e, change_line) (λ h. absurd (cc))
      | inr (i, e) ↦ elim (Option-cases (find_product s db i.product_id)) [
        | inl f ↦ rw (e, f, change_line) (λ h. absurd (cc))
        | inr (p, f) ↦
            rw (e, f, change_line)
              (guarded-AtHome (not (i.cart_id === c)) bad_request db _ (
                guarded-AtHome (ltb_ℤ p.stock (pos dto.quantity)) bad_request db _ (
                  guarded-AtHome (ltb_ℤ (max_qty p) (pos dto.quantity)) bad_request db _
                    (update_item_quantity-AtHome db id _ _))))
      ]
    ]

    remove_line-AtHome : (db : Db) (id : String) → AtHome (remove_line s db c id now)
    unfolding remove_line
    remove_line-AtHome db id = elim (Option-cases (find_item s db id)) [
      | inl e ↦ rw (e, remove_line) (λ h. absurd (cc))
      | inr (i, e) ↦ elim (Option-cases (find_cart s db i.cart_id)) [
        | inl f ↦ rw (e, f, remove_line) (λ h. absurd (cc))
        | inr (k, f) ↦
            rw (e, f, remove_line)
              (guarded-AtHome (not (i.cart_id === c)) bad_request db _ (plain-AtHome _))
      ]
    ]

    -- The totals after one of the three calls, by the code's own sums.
    pub run-Balanced :
        (call : LineCall) (db : Db)
        → (run call db c now).1 ≡ ok tt
        → Balanced 12 (pos 0) c (run call db c now).0
    unfolding run
    run-Balanced (adding dto new_id) db h = add_line-AtHome db dto new_id h
    run-Balanced (changing id dto) db h = change_line-AtHome db id dto h
    run-Balanced (removing id) db h = remove_line-AtHome db id h

  -- After `clearCart` on a cart that is there, the totals are those of its items, of which there are
  -- none, exactly where the cart had no cost of shipping: that amount stays.
  pub clear_lines-Balanced :
      (db : Db) (id : String) (now : ℕ) {c : Cart}
      → find_cart s db id ≡ some c
      → let r = clear_lines s db id now in
        (r.1 ≡ ok tt)
        × (cart_items r.0 id ≡ [])
        × (Balanced 12 c.shipping id r.0 ↔ (c.shipping ≡ pos 0))
  unfolding clear_lines subtotal_of tax_on cleared
  clear_lines-Balanced db id now {c} h =
      let kept : find_cart s (delete_items db id) id ≡ some c =
        ground (arith, contents-delete_items db id) in
      let f = cleared now in
      let none_left =
        cart_items-update_cart (delete_items db id) id id f ∙ cart_items-delete_items db id in
      let found = find-update_cart (delete_items db id) id f kept in
      rw (kept, clear_lines)
        (
          refl,
          none_left,
          (
            (λ b. cleared-shipping c b.0 now (unwrap (sym b.1 ∙ found)) b.5),
            (λ free. (
              f c,
              found,
              sym (ap subtotal_of none_left),
              refl,
              refl,
              cleared_total c.shipping free,
            )),
          ),
        )
