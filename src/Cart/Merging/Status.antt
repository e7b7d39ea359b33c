-- ===== src/Cart/Merging/Status.antt =====
-- What becomes of the cart of the session in a merge (cart.service.ts, `mergeGuestCart`).
use mathlib.Core.Path.{subst}
use mash_backend.Prelude.{
  ℕ, suc, ◌≡◌, ◌≢◌, refl, ap, sym, ◌∙◌, ◌⊎◌, inl, inr, String, Option, none, some, List, [], ◌∷◌,
  arith, ◌===◌, ===_iff, ===_refl, string_eq, Bool-cases, Option-cases,
}
use mash_backend.Prelude.Int.{ltb_ℤ}
use mash_backend.RateLimit.Redis.{Client}
use mash_backend.Cart.Types.{Cart, CartStatus, merged, CartItem, Product, Error, Result, ok, err}
use mash_backend.Cart.Database.{CartStore, by_user, by_session}
use mash_backend.Cart.Shipping.{ShippingAddress, ShippingMethod}
use mash_backend.Cart.Totals.{calculate_totals, find_cart, with_products, with_totals}
use mash_backend.Cart.Cache.{CartResponse, World, get_or_create_cart, key_of, get_cart, new_cart}
use mash_backend.Cart.Merging.{
  merge_filled, mark_merged, merge_item, merge_items, merge_carts, own_cart, merge_guest_cart,
}

Result-cases : (x : Result (Unit {0})) → (x ≡ ok tt) ⊎ ((e : Error) × (x ≡ err e))
Result-cases (ok tt) = inl refl
Result-cases (err e) = inr (e, refl)

-- The row of a cart has that status.
abbrev pub HasStatus : CartStatus → Option Cart → Type 0
HasStatus st o = (c : Cart) × (o ≡ some c) × (c.status ≡ st)

module _ (s : CartStore) where
  open s use {
    Db, contents, item_of, active_cart, cart_items, create_cart, create_item, update_item,
    update_cart, contents-create_cart, contents-create_item, contents-update_item,
    contents-update_cart, active_cart-found,
  }

  -- An update that keeps the status keeps it in the table.
  pub HasStatus-update_cart :
      (db : Db) (id j : String) (f : Cart → Cart) (st : CartStatus)
      → ((c : Cart) → (f c).status ≡ c.status)
      → HasStatus st (find_cart s db j)
      → HasStatus st (find_cart s (update_cart db id f) j)
  HasStatus-update_cart db id j f st keeps (c, found, has) = elim (Bool-cases (id === j)) [
    | inl e ↦ (
      f c,
      ap (λ t. t.carts j) (contents-update_cart db id f) ∙ rw (e, (===_iff id j).0 e, found) refl,
      keeps c ∙ has,
    )
    | inr e ↦ (c, ap (λ t. t.carts j) (contents-update_cart db id f) ∙ rw (e, found) refl, has)
  ]

  pub HasStatus-calculate_totals :
      (db : Db) (id j : String) (a : Option ShippingAddress) (m : Option ShippingMethod) (now : ℕ)
      (st : CartStatus)
      → HasStatus st (find_cart s db j)
      → HasStatus st (find_cart s (calculate_totals s db id a m now).0 j)
  unfolding calculate_totals with_totals
  HasStatus-calculate_totals db id j a m now st h = elim (Option-cases (find_cart s db id)) [
    | inl e ↦ rw (e, calculate_totals) h
    | inr (c, e) ↦ elim (Option-cases (with_products s db (cart_items db id))) [
      | inl f ↦ rw (e, f, calculate_totals) h
      | inr (is, f) ↦ rw (e, f, calculate_totals) (HasStatus-update_cart db id j _ st (λ k. refl) h)
    ]
  ]

  cart-merge_item :
      (db : Db) (c new_id : String) (i : CartItem × Product) (j : String)
      → find_cart s (merge_item s db c new_id i).0 j ≡ find_cart s db j
  unfolding merge_item
  cart-merge_item db c new_id (i, p) j = elim (Option-cases (item_of db c i.product_id)) [
    | inr ((id, own), e) ↦ rw (e, merge_item) (ap (λ t. t.carts j) (contents-update_item db id _))
    | inl e ↦ elim (Bool-cases p.is_active) [
      | inr off ↦ rw (e, off, merge_item) refl
      | inl on ↦ elim (Bool-cases (ltb_ℤ p.stock i.quantity)) [
        | inl short ↦ ground (arith, e, on, short)
        | inr enough ↦
            rw (e, on, enough, merge_item) (ap (λ t. t.carts j) (contents-create_item db new_id _))
      ]
    ]
  ]

  cart-merge_items :
      (db : Db) (c : String) (new_ids : ℕ → String) (n : ℕ) (is : List (CartItem × Product))
      (j : String)
      → find_cart s (merge_items s db c new_ids n is) j ≡ find_cart s db j
  unfolding merge_items
  cart-merge_items db c new_ids n [] j = refl
  cart-merge_items db c new_ids n (i ∷ is) j =
      cart-merge_items (merge_item s db c (new_ids n) i).0 c new_ids (suc n) is j
      ∙ cart-merge_item db c (new_ids n) i j

  marked-HasStatus :
      (db : Db) (id : String) (now : ℕ) {c : Cart}
      → find_cart s db id ≡ some c
      → HasStatus merged (find_cart s (update_cart db id (mark_merged now)) id)
  unfolding mark_merged
  marked-HasStatus db id now {c} found = (
    mark_merged now c,
    ap (λ t. t.carts id) (contents-update_cart db id (mark_merged now))
        ∙ rw (===_refl id, found) refl,
    refl,
  )

  merge_carts-HasStatus :
      (db : Db) (guest own : String) (new_ids : ℕ → String) (is : List (CartItem × Product))
      (now : ℕ) {c : Cart}
      → find_cart s db guest ≡ some c
      → HasStatus merged (find_cart s (merge_carts s db guest own new_ids is now).0 guest)
  unfolding merge_carts
  merge_carts-HasStatus db guest own new_ids is now found =
      HasStatus-calculate_totals _ own guest none none now merged
        (marked-HasStatus _ guest now (cart-merge_items db own new_ids 0 is guest ∙ found))

  cart-create_cart :
      (db : Db) (id j : String) (c : Cart)
      → j ≢ id
      → find_cart s (create_cart db id c) j ≡ find_cart s db j
  cart-create_cart db id j c differs =
      ap (λ t. t.carts j) (contents-create_cart db id c) ∙ ground (arith, ===_iff id j, differs)

module _ (s : CartStore) (r : Client CartResponse) where
  open s use {Db, active_cart, cart_items, active_cart-found, update_cart}

  -- Looking a cart up changes no cart that is there.
  pub get_or_create_cart-cart :
      (w : World s r) (user session : Option String) (new_id j : String) (now : ℕ)
      → j ≢ new_id
      → find_cart s (get_or_create_cart s r w user session new_id now).0.0 j ≡ find_cart s w.0 j
  unfolding get_or_create_cart
  get_or_create_cart-cart (db, c) user session new_id j now differs =
      elim (Option-cases (key_of user session)) [
        | inl e ↦ rw (e, get_or_create_cart) refl
        | inr (k, e) ↦ elim (Option-cases (get_cart s r c k now)) [
          | inr (cached, f) ↦ rw (e, f, get_or_create_cart) refl
          | inl f ↦ elim (Option-cases (active_cart db k)) [
            | inr ((id, cart), g) ↦ rw (e, f, g, get_or_create_cart) refl
            | inl g ↦
                rw (e, f, g, get_or_create_cart)
                  (cart-create_cart s db new_id j (new_cart user session now) differs)
          ]
        ]
      ]

  merge_filled-HasStatus :
      (w : World s r) (user session guest own : String) (new_ids : ℕ → String)
      (is : List (CartItem × Product)) (next_id : String) (now : ℕ) {c : Cart}
      {response : CartResponse}
      → find_cart s w.0 guest ≡ some c
      → guest ≢ next_id
      → (merge_filled s r w user session guest own new_ids is next_id now).1 ≡ ok response
      → HasStatus merged
          (find_cart s (merge_filled s r w user session guest own new_ids is next_id now).0.0 guest)
  unfolding merge_filled
  merge_filled-HasStatus (db, c) user session guest own new_ids is next_id now {c = cart} {response}
        found next h =
      elim (Option-cases (with_products s db (cart_items db own))) [
        | inl e ↦ absurd (ground (arith, e, h))
        | inr (_, e) ↦ elim (Result-cases (merge_carts s db guest own new_ids is now).1) [
          | inr (f, bad) ↦ absurd (ground (arith, e, bad, h))
          | inl fine ↦
              rw (e, fine, merge_filled)
                (subst (HasStatus merged)
                  (sym (get_or_create_cart-cart _ (some user) none next_id guest now next))
                  (merge_carts-HasStatus s db guest own new_ids is now found))
        ]
      ]

  own_cart-cart :
      (db : Db) (user own_id : String) (now : ℕ) (id : String)
      → id ≢ own_id
      → find_cart s (own_cart s db user own_id now).0 id ≡ find_cart s db id
  own_cart-cart db user own_id now id differs =
      elim (Option-cases (active_cart db (by_user user))) [
        | inr (_, e) ↦ rw (e, own_cart) refl
        | inl e ↦
            rw (e, own_cart)
              (cart-create_cart s db own_id id (new_cart (some user) none now) differs)
      ]

  -- `mergeGuestCart` that finds an active cart of the session, and does not throw, leaves that cart
  -- `MERGED`, whosever it is: also where it is the active cart of the user himself. The ids made up for new carts are new.
  pub merge_guest_cart-merged :
      (w : World s r) (user session own_id next_id : String) (new_ids : ℕ → String) (now : ℕ)
      (id : String) (c : Cart)
      → active_cart w.0 (by_session session) ≡ some (id, c)
      → id ≢ own_id
      → id ≢ next_id
      → let (w', answer) = merge_guest_cart s r w user session own_id new_ids next_id now in
        (response : CartResponse) → answer ≡ ok response → HasStatus merged (find_cart s w'.0 id)
  unfolding merge_guest_cart
  merge_guest_cart-merged (db, conn) user session own_id next_id new_ids now id c e fresh next
        response h =
      elim (with_products s db (cart_items db id))
          as (λ o.
            with_products s db (cart_items db id) ≡ o
            → HasStatus merged (
                find_cart s
                  (merge_guest_cart s r (db, conn) user session own_id new_ids next_id now).0.0
                  id)) [
                    | none ↦ λ f. absurd (ground (arith, e, f, h))
                    | some [] ↦ λ f.
                        rw (e, f, merge_guest_cart)
                          (subst (HasStatus merged)
                            (sym (
                              get_or_create_cart-cart (update_cart db id (mark_merged now), conn)
                                (some user) none next_id id now next))
                            (marked-HasStatus s db id now
                              (active_cart-found db (by_session session) e).0))
                    | some (i ∷ is) ↦ λ f.
                        let there =
                          own_cart-cart db user own_id now id fresh
                          ∙ (active_cart-found db (by_session session) e).0 in
                        let (db', own) = own_cart s db user own_id now in
                        let filled =
                          merge_filled s r (db', conn) user session id own new_ids (i ∷ is) next_id
                            now in
                        let same : merge_guest_cart s r (db, conn) user session own_id new_ids
                              next_id now
                            ≡ filled =
                          rw (e, f, merge_guest_cart) refl in
                        subst (λ x. HasStatus merged (find_cart s x.0.0 id)) (sym same)
                          (merge_filled-HasStatus (db', conn) user session id own new_ids (i ∷ is)
                            next_id now there next (subst (λ x. x.1 ≡ ok response) same h))
                  ]
        refl
