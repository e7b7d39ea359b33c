-- ===== src/Orders/Stock.antt =====
-- What creating and cancelling an order do to the stock (orders.service.ts, `create` and `cancel`).
use mash_backend.Prelude.{
  ℕ, ◌+◌, ◌≡◌, ◌≢◌, refl, ap, sym, ◌∙◌, inl, inr, String, true, Option, none, some, List, [], ◌∷◌,
  arith, ◌===◌, ===_iff, if◌then◌else◌, string_eq, Bool-cases, Option-cases, All,
}
use mash_backend.Prelude.Int.{ℤ, pos, ◌+ℤ◌, ◌-ℤ◌, int_laws}
use mash_backend.Orders.Types.{Product, OrderItem, ok}
use mash_backend.Prelude.Tables.{mapped}
use mash_backend.Orders.Database.{Store}
use mash_backend.Orders.{validate_items, change_stocks, decrement, increment}

-- How many of the product the items order.
unfoldable pub ordered : String → List OrderItem → ℕ
ordered j [] = 0
ordered j (i ∷ is) = if i.product_id === j then i.quantity + ordered j is else ordered j is

-- A change of stock by amounts that add up.
pub record Adds (f : ℕ → ℤ → ℤ) : Type 0 where
  pub none_at_all : (x : ℤ) → f 0 x ≡ x
  pub twice : (m n : ℕ) (x : ℤ) → f n (f m x) ≡ f (m + n) x

pub decrement-Adds : Adds decrement
unfolding decrement
decrement-Adds = record { none_at_all = λ x. omega int_laws; twice = λ m n x. omega int_laws }

pub increment-Adds : Adds increment
unfolding increment
increment-Adds = record { none_at_all = λ x. omega int_laws; twice = λ m n x. omega int_laws }

abbrev pub restocked : (ℕ → ℤ → ℤ) → ℕ → Product → Product
restocked f n p = record p { stock = f n p.stock }

-- The product with so many less, and with so many more.
abbrev pub fewer : ℕ → Product → Product
fewer n p = record p { stock = p.stock -ℤ pos n }

abbrev pub more : ℕ → Product → Product
more n p = record p { stock = p.stock +ℤ pos n }

module _ (s : Store) where
  open s use {
    Db, find_order, find_product, create_order, update_order, update_product, update_payment,
    order-create, product-create, order-update, product-update, product-update_product,
    order-update_product,
  }

  abbrev pub AllFound : Db → List OrderItem → Type 0
  AllFound db is = All (λ i. find_product db i.product_id ≢ none) is

  pub validate_items-AllFound :
      (db : Db) (is : List OrderItem) → validate_items s db is ≡ ok tt → AllFound db is
  unfolding validate_items
  validate_items-AllFound db [] h = tt
  validate_items-AllFound db (i ∷ is) h = elim (Option-cases (find_product db i.product_id)) [
    | inl e ↦ ground arith
    | inr (p, e) ↦ ((λ f. ground arith), validate_items-AllFound db is (ground arith))
  ]

  update-AllFound :
      (db : Db) (id : String) (f : Product → Product) (is : List OrderItem)
      → AllFound db is
      → AllFound (update_product db id f) is
  update-AllFound db id f [] h = tt
  update-AllFound db id f (i ∷ is) h = ((λ e. h.0 (lost e)), update-AllFound db id f is h.1)
    where
      lost :
          find_product (update_product db id f) i.product_id ≡ none
          → find_product db i.product_id ≡ none
      lost e = ground (arith, product-update_product db id i.product_id f, ===_iff id i.product_id)

  module _ (f : ℕ → ℤ → ℤ) (a : Adds f) where
    -- The database after the update for one item.
    abbrev after_item : OrderItem → Db → Db
    after_item i db = update_product db i.product_id (restocked f i.quantity)

    pub change_stocks_done :
        (is : List OrderItem) (db : Db) → AllFound db is → (change_stocks s f db is).1 ≡ true
    unfolding change_stocks
    change_stocks_done [] db h = refl
    change_stocks_done (i ∷ is) db h = elim (Option-cases (find_product db i.product_id)) [
      | inl e ↦ absurd (h.0 e)
      | inr (p, e) ↦
          rw (e, change_stocks)
            (change_stocks_done is (after_item i db) (update-AllFound db i.product_id _ is h.1))
    ]

    restocked_none : (o : Option Product) → mapped (restocked f 0) o ≡ o
    restocked_none none = refl
    restocked_none (some p) = ap (λ x. some (record p { stock = x })) (a.none_at_all p.stock)

    restocked_twice :
        (m n : ℕ) (o : Option Product)
        → mapped (restocked f n) (mapped (restocked f m) o) ≡ mapped (restocked f (m + n)) o
    restocked_twice m n none = refl
    restocked_twice m n (some p) = ap (λ x. some (record p { stock = x })) (a.twice m n p.stock)

    item-stock :
        (i : OrderItem) (is : List OrderItem) (db : Db) (j : String)
        → mapped (restocked f (ordered j is)) (find_product (after_item i db) j)
          ≡ mapped (restocked f (ordered j (i ∷ is))) (find_product db j)
    unfolding ordered
    item-stock i is db j = elim (Bool-cases (i.product_id === j)) [
      | inl e ↦
          rw (product-update_product db i.product_id j (restocked f i.quantity), e)
            (restocked_twice i.quantity (ordered j is) (find_product db i.product_id)
              ∙ ap (λ k. mapped (restocked f (i.quantity + ordered j is)) (find_product db k))
                  ((===_iff i.product_id j).0 e))
      | inr e ↦ rw (product-update_product db i.product_id j (restocked f i.quantity), e)
    ]

    pub change_stocks-stock :
        (is : List OrderItem) (db : Db) (j : String)
        → AllFound db is
        → find_product (change_stocks s f db is).0 j
          ≡ mapped (restocked f (ordered j is)) (find_product db j)
    unfolding change_stocks ordered
    change_stocks-stock [] db j h = sym (restocked_none (find_product db j))
    change_stocks-stock (i ∷ is) db j h = elim (Option-cases (find_product db i.product_id)) [
      | inl e ↦ absurd (h.0 e)
      | inr (p, e) ↦
          rw (e, change_stocks)
            (change_stocks-stock is (after_item i db) j (update-AllFound db i.product_id _ is h.1)
              ∙ item-stock i is db j)
    ]

    pub change_stocks-order :
        (is : List OrderItem) (db : Db) (j : String)
        → find_order (change_stocks s f db is).0 j ≡ find_order db j
    unfolding change_stocks
    change_stocks-order [] db j = refl
    change_stocks-order (i ∷ is) db j = elim (Option-cases (find_product db i.product_id)) [
      | inl e ↦ rw (e, change_stocks) refl
      | inr (p, e) ↦
          rw (e, change_stocks)
            (change_stocks-order is (after_item i db) j ∙ order-update_product db i.product_id j _)
    ]
