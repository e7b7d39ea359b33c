-- ===== src/Cart/Merging.antt =====
-- `mergeGuestCart` and `validateCart` of src/modules/cart/cart.service.ts.
use mash_backend.Prelude.{
  ℕ, suc, ◌+◌, String, Bool, true, false, not, ◌&&◌, Option, none, some, List, [], ◌∷◌,
  if◌then◌else◌, ◌==◌,
}
use mash_backend.Prelude.Int.{ℤ, pos, ◌+ℤ◌, ltb_ℤ, times, min_ℤ}
use mash_backend.RateLimit.Redis.{Client}
use mash_backend.Cart.Types.{
  Product, Cart, merged, CartItem, Error, not_found, record_missing, Result, ok, err, Reason,
  no_longer_available, out_of_stock,
}
use mash_backend.Cart.Database.{by_user, by_session, CartStore}
use mash_backend.Cart.Totals.{max_qty, calculate_totals, find_cart, with_products}
use mash_backend.Cart.Cache.{CartResponse, new_cart, World, get_or_create_cart, invalidate_cart}
pub mod Lines
pub mod Status

pub data Merged : Type 0 where
  item_added quantities_merged item_skipped : Merged

-- What a line that both carts have is changed to.
unfoldable pub combined : ℤ → ℕ → CartItem → CartItem
unfolding times
combined q price row = record row { quantity = q; subtotal = times price q; total = times price q }

-- `Math.min(existing + guest, maxQty, stock)`.
unfoldable pub merged_quantity : CartItem → CartItem → Product → ℤ
unfolding max_qty ◌+ℤ◌
merged_quantity own guest p = min_ℤ (min_ℤ (own.quantity +ℤ guest.quantity) (max_qty p)) p.stock

-- The guest's line as a new line of the user's cart.
unfoldable pub moved : String → CartItem → CartItem
moved c guest = record {
  cart_id = c;
  product_id = guest.product_id;
  quantity = guest.quantity;
  price = guest.price;
  original_price = guest.price;
  subtotal = guest.subtotal;
  discount = guest.discount;
  total = guest.total;
  is_available = true;
  unavailable_reason = none;
  customization = guest.customization;
}

unfoldable pub mark_merged : ℕ → Cart → Cart
mark_merged now row = record row { status = merged; converted_at = some now }

pub record ItemValidation : Type 0 where
  pub item_id : String
  pub product_id : String
  pub is_available : Bool
  pub current_stock : ℤ
  pub requested_quantity : ℤ
  pub price_changed : Bool
  pub old_price : Option ℕ
  pub new_price : Option ℕ

-- `product.isActive && product.stock >= item.quantity`.
abbrev pub can_have : CartItem → Product → Bool
can_have i p = p.is_active && not (ltb_ℤ p.stock i.quantity)

unfoldable pub validation_of : String → CartItem → Product → ItemValidation
validation_of id i p =
    let differs = not (p.price == i.price) in
    record {
      item_id = id;
      product_id = i.product_id;
      is_available = can_have i p;
      current_stock = p.stock;
      requested_quantity = i.quantity;
      price_changed = differs;
      old_price = if differs then some i.price else none;
      new_price = if differs then some p.price else none;
    }

abbrev pub is_fine : ItemValidation → Bool
is_fine v = v.is_available && not v.price_changed

abbrev pub all_fine : List ItemValidation → Bool
all_fine [] = true
all_fine (v ∷ vs) = if is_fine v then all_fine vs else false

abbrev pub reason_of : Product → Reason
reason_of p = if p.is_active then out_of_stock else no_longer_available

module _ (s : CartStore) where
  open s use {
    Db, contents, active_cart, cart_items, item_of, create_cart, create_item, update_item,
    update_cart,
  }

  -- One turn of the loop over the guest's items.
  unfoldable pub merge_item : Db → String → String → CartItem × Product → Db × Merged
  unfolding combined merged_quantity moved
  merge_item db c new_id (guest, p) = elim (item_of db c guest.product_id) [
    | some (id, own) ↦
        (update_item db id (combined (merged_quantity own guest p) p.price), quantities_merged)
    | none ↦
        if not p.is_active
        then (db, item_skipped)
        else if ltb_ℤ p.stock guest.quantity
        then (db, item_skipped)
        else (create_item db new_id (moved c guest), item_added)
  ]

  -- The loop. `new_ids` gives the ids of the rows that it creates.
  unfoldable pub merge_items : Db → String → (ℕ → String) → ℕ → List (CartItem × Product) → Db
  unfolding merge_item
  merge_items db c new_ids n [] = db
  merge_items db c new_ids n (i ∷ is) =
      merge_items (merge_item db c (new_ids n) i).0 c new_ids (suc n) is

  -- From the loop to the totals, once both carts are there.
  unfoldable pub merge_carts :
      Db → String → String → (ℕ → String) → List (CartItem × Product) → ℕ → Db × Result (Unit {0})
  unfolding merge_items mark_merged calculate_totals
  merge_carts db guest own new_ids is now =
      calculate_totals s (update_cart (merge_items db own new_ids 0 is) guest (mark_merged now)) own
        none none now

  -- The user's cart, created if need be.
  abbrev pub own_cart : Db → String → String → ℕ → Db × String
  own_cart db user new_id now = elim (active_cart db (by_user user)) [
    | some (id, _) ↦ (db, id)
    | none ↦ (create_cart db new_id (new_cart (some user) none now), new_id)
  ]

  -- The updates of `validateCart`: an item that can no longer be had is marked, and never unmarked.
  unfoldable pub mark_items : Db → List (String × CartItem) → List (CartItem × Product) → Db
  mark_items db ((id, i) ∷ is) ((_, p) ∷ ps) =
      let db' =
        if not (can_have i p) && i.is_available
        then update_item db id
            (λ row. record row { is_available = false; unavailable_reason = some (reason_of p) })
        else db in
      mark_items db' is ps
  mark_items db _ _ = db

  unfoldable pub validations :
      List (String × CartItem) → List (CartItem × Product) → List ItemValidation
  unfolding validation_of
  validations ((id, i) ∷ is) ((_, p) ∷ ps) = validation_of id i p ∷ validations is ps
  validations _ _ = []

  unfoldable pub validate_cart : Db → String → Db × Result (Bool × List ItemValidation)
  unfolding mark_items validations with_products
  validate_cart db id = elim (find_cart s db id) [
    | none ↦ (db, err not_found)
    | some _ ↦ elim (with_products s db (cart_items db id)) [
      | none ↦ (db, err record_missing)
      | some ps ↦
          let results = validations (cart_items db id) ps in
          (mark_items db (cart_items db id) ps, ok (all_fine results, results))
    ]
  ]

module _ (s : CartStore) (r : Client CartResponse) where
  open s use {Db, active_cart, cart_items, update_cart}

  -- From the query for the items of the user's cart on.
  unfoldable pub merge_filled :
      World s r
      → String
      → String
      → String
      → String
      → (ℕ → String)
      → List (CartItem × Product)
      → String
      → ℕ
      → World s r × Result CartResponse
  unfolding merge_carts get_or_create_cart invalidate_cart with_products
  merge_filled (db, c) user session guest own new_ids is next_id now =
      elim (with_products s db (cart_items db own)) [
        | none ↦ ((db, c), err record_missing)
        | some _ ↦
            let (db', done) = merge_carts s db guest own new_ids is now in
            elim done [
              | err e ↦ ((db', c), err e)
              | ok _ ↦
                  get_or_create_cart s r
                    (
                      db',
                      invalidate_cart s r (invalidate_cart s r c (some user) none) none
                          (some session),
                    )
                    (some user) none next_id now
            ]
      ]

  -- `own_id` and `next_id` are for carts that have to be created before and after the merge.
  unfoldable pub merge_guest_cart :
      World s r
      → String
      → String
      → String
      → (ℕ → String)
      → String
      → ℕ
      → World s r × Result CartResponse
  unfolding merge_filled mark_merged get_or_create_cart with_products
  merge_guest_cart (db, c) user session own_id new_ids next_id now =
      elim (active_cart db (by_session session)) [
        | none ↦ get_or_create_cart s r (db, c) (some user) none next_id now
        | some (guest, _) ↦ elim (with_products s db (cart_items db guest)) [
          | none ↦ ((db, c), err record_missing)
          | some [] ↦
              get_or_create_cart s r (update_cart db guest (mark_merged now), c) (some user) none
                next_id now
          | some (i ∷ is) ↦
              let (db', own) = own_cart s db user own_id now in
              merge_filled (db', c) user session guest own new_ids (i ∷ is) next_id now
        ]
      ]
