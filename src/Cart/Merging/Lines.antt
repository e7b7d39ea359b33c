-- ===== src/Cart/Merging/Lines.antt =====
-- What the merge of a guest's cart does to the lines and to the carts (cart.service.ts,
-- `mergeGuestCart`).
use mash_backend.Prelude.{
  ◌≡◌, ◌≢◌, refl, ap, ◌∙◌, ◌⊎◌, inl, inr, String, true, false, Option, none, some, arith, ◌===◌,
  ===_iff, ===_refl, if◌then◌else◌, string_eq, Bool-cases, Option-cases,
}
use mash_backend.Prelude.Int.{◌+ℤ◌, ◌≤ℤ◌, ◌<ℤ◌, ltb_ℤ, times, min_ℤ, min_ℤ_le, min_ℤ-cases}
use mash_backend.Cart.Types.{CartItem, Product}
use mash_backend.Prelude.Tables.{mapped}
use mash_backend.Cart.Database.{CartStore}
use mash_backend.Cart.Totals.{max_qty, find_item}
use mash_backend.Cart.Merging.{
  item_added, quantities_merged, item_skipped, combined, merged_quantity, moved, merge_item,
}

merged_quantity_le :
    (own guest : CartItem) (p : Product)
    → let q = merged_quantity own guest p in
      (q ≤ℤ own.quantity +ℤ guest.quantity) × (q ≤ℤ max_qty p) × (q ≤ℤ p.stock)
unfolding merged_quantity
merged_quantity_le own guest p =
    let sum = own.quantity +ℤ guest.quantity in
    let (both, stock) = min_ℤ_le (min_ℤ sum (max_qty p)) p.stock in
    let (all, allowed) = min_ℤ_le sum (max_qty p) in
    (omega (arith, both, all), omega (arith, both, allowed), stock)

merged_quantity-least :
    (own guest : CartItem) (p : Product)
    → let q = merged_quantity own guest p in
      (q ≡ own.quantity +ℤ guest.quantity) ⊎ (q ≡ max_qty p) ⊎ (q ≡ p.stock)
unfolding merged_quantity
merged_quantity-least own guest p =
    let sum = own.quantity +ℤ guest.quantity in
    elim (min_ℤ-cases (min_ℤ sum (max_qty p)) p.stock) [
      | inr stock ↦ inr (inr stock)
      | inl first ↦ elim (min_ℤ-cases sum (max_qty p)) [
        | inl all ↦ inl (first ∙ all)
        | inr allowed ↦ inr (inl (first ∙ allowed))
      ]
    ]

-- The guest's line as a new line of the user's cart.
abbrev pub guest_line : String → CartItem → CartItem
guest_line c guest = record guest {
  cart_id = c;
  original_price = guest.price;
  is_available = true;
  unavailable_reason = none;
}

module _ (s : CartStore) where
  open s use {
    Db, contents, item_of, cart_items, create_item, update_item, update_cart, contents-create_item,
    contents-update_item, contents-update_cart, item_of-found,
  }

  -- The row after a merge into it: it holds what both hold together, what is allowed or the stock, whichever
  -- is least, at the product's present price, while the price on the row stays.
  abbrev pub Combined : CartItem → CartItem → Product → Option CartItem → Type 0
  Combined own guest p o =
      (row : CartItem) × (o ≡ some row)
      × (row.quantity ≤ℤ own.quantity +ℤ guest.quantity)
      × (row.quantity ≤ℤ max_qty p)
      × (row.quantity ≤ℤ p.stock)
      × ((row.quantity ≡ own.quantity +ℤ guest.quantity)
          ⊎ (row.quantity ≡ max_qty p)
          ⊎ (row.quantity ≡ p.stock))
      × (row.subtotal ≡ times p.price row.quantity)
      × (row.total ≡ row.subtotal)
      × (row.price ≡ own.price)

  item-update_item :
      (db : Db) (id j : String) (f : CartItem → CartItem)
      → find_item s (update_item db id f) j
        ≡ (if id === j then mapped f (find_item s db id) else find_item s db j)
  item-update_item db id j f = ap (λ t. t.items j) (contents-update_item db id f)

  module _ (db : Db) (c new_id : String) (guest : CartItem) (p : Product)
      (e : item_of db c guest.product_id ≡ none) where
    skipped :
        (p.is_active ≡ false) ⊎ (ltb_ℤ p.stock guest.quantity ≡ true)
        → merge_item s db c new_id (guest, p) ≡ (db, item_skipped)
    unfolding merge_item
    skipped (inl off) = rw (e, off, merge_item) refl
    skipped (inr short) = ground (arith, e, short)

    taken_over :
        p.is_active ≡ true
        → ltb_ℤ p.stock guest.quantity ≡ false
        → merge_item s db c new_id (guest, p) ≡ (create_item db new_id (moved c guest), item_added)
    unfolding merge_item
    taken_over on covered = rw (e, on, covered, merge_item) refl

  -- A guest's item whose product the user has in the cart already changes that line and no other: it then
  -- holds the least of what both hold together, of what is allowed and of the stock. Any
  -- other becomes a line of its own as it was, if the product is active and its stock covers it, and is
  -- left out if not.
  pub merge_item_effect :
      (db : Db) (c new_id : String) (guest : CartItem) (p : Product)
      → let (db', outcome) = merge_item s db c new_id (guest, p) in
        ((id : String) × (own : CartItem) × (item_of db c guest.product_id ≡ some (id, own))
          × (outcome ≡ quantities_merged)
          × Combined own guest p (find_item s db' id)
          × ((j : String) → j ≢ id → find_item s db' j ≡ find_item s db j))
        ⊎ ((item_of db c guest.product_id ≡ none)
            × (p.is_active ≡ true)
            × (guest.quantity ≤ℤ p.stock)
            × (outcome ≡ item_added)
            × ((j : String)
                → find_item s db' j
                  ≡ (if new_id === j then some (guest_line c guest) else find_item s db j)))
        ⊎ ((item_of db c guest.product_id ≡ none)
            × ((p.is_active ≡ false) ⊎ (p.stock <ℤ guest.quantity))
            × (outcome ≡ item_skipped)
            × (db' ≡ db))
  unfolding merge_item combined moved
  merge_item_effect db c new_id guest p = elim (Option-cases (item_of db c guest.product_id)) [
    | inr ((id, own), e) ↦
        let q = merged_quantity own guest p in
        let (sum, allowed, stock) = merged_quantity_le own guest p in
        let f = combined q p.price in
        let (found, _, _) = item_of-found db c guest.product_id e in
        rw (e, merge_item)
          (inl (
            id,
            own,
            refl,
            refl,
            (
              f own,
              item-update_item db id id f ∙ rw (===_refl id, found) refl,
              sum,
              allowed,
              stock,
              merged_quantity-least own guest p,
              refl,
              refl,
              refl,
            ),
            (λ j differs. ground (arith, item-update_item db id j f, ===_iff id j, differs)),
          ))
    | inl e ↦ elim (Bool-cases p.is_active) [
      | inr off ↦ rw (skipped db c new_id guest p e (inl off)) (inr (inr (e, inl off, refl, refl)))
      | inl on ↦ elim (Bool-cases (ltb_ℤ p.stock guest.quantity)) [
        | inl short ↦
            rw (skipped db c new_id guest p e (inr short))
              (inr (inr (e, inr (ground (arith, short)), refl, refl)))
        | inr covered ↦ rw (taken_over db c new_id guest p e on covered) (
            inr (
              inl (
                e,
                on,
                ground (arith, covered),
                refl,
                (λ j. ap (λ t. t.items j) (contents-create_item db new_id (moved c guest))),
              )))
      ]
    ]
  ]
