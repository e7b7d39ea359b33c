-- ===== src/Cart/Balance/Charged.antt =====
-- What the totals of a cart come to after a change of its items (cart.service.ts).
use mathlib.Core.Path.{subst}
use mash_backend.Prelude.{
  ℕ, suc, ◌+◌, ◌*◌, ◌/◌, ◌≤◌, ◌<◌, ◌≡◌, refl, ap, sym, ◌∙◌, String, some, List, [], ◌∷◌, arith,
}
use mash_backend.Prelude.Int.{ℤ, pos, negsuc, ◌+ℤ◌, ◌-ℤ◌, pos_part, neg_part, int_laws}
use mash_backend.Cart.Types.{Cart, CartItem, ok}
use mash_backend.Cart.Database.{CartStore}
use mash_backend.Cart.Totals.{tax_on, subtotal_of, find_cart}
use mash_backend.Cart.Balance.{LineCall, run, run-Balanced}

-- The totals of the lines together.
abbrev pub sum_of : List (String × CartItem) → ℤ
sum_of [] = pos 0
sum_of ((_, i) ∷ is) = i.total +ℤ sum_of is

subtotal_of-sum : (is : List (String × CartItem)) → subtotal_of is ≡ sum_of is
unfolding subtotal_of
subtotal_of-sum [] = refl
subtotal_of-sum ((_, i) ∷ is) = ap (λ x. i.total +ℤ x) (subtotal_of-sum is)

-- So many whole centavos are 12 percent of so many, rounded with halves away from zero.
abbrev pub Rounded : ℕ → ℕ → Type 0
Rounded m n = (100 * m ≤ 12 * n + 50) × (12 * n + 50 < 100 * m + 100)

abbrev pub Taxed : ℤ → ℤ → Type 0
Taxed x (pos n) = (m : ℕ) × (x ≡ pos m) × Rounded m n
Taxed x (negsuc n) = (m : ℕ) × (x ≡ pos 0 -ℤ pos m) × Rounded m (suc n)

tax_on-Taxed : (t : ℤ) → Taxed (tax_on 12 t) t
unfolding tax_on
tax_on-Taxed (pos n) = ((n * 12 + 50) / 100, refl, (omega arith, omega arith))
tax_on-Taxed (negsuc n) = ((suc n * 12 + 50) / 100, refl, (omega arith, omega arith))

module _ (s : CartStore) where
  open s use {Db, cart_items}

  -- The cart has the sum of its lines, the tax on it, no shipping, and the total of these.
  pub record Charged (c : String) (db : Db) (k : Cart) : Type 0 where
    pub here : find_cart s db c ≡ some k
    pub summed : k.subtotal ≡ sum_of (cart_items db c)
    pub taxed : Taxed k.tax k.subtotal
    pub not_shipped : k.shipping ≡ pos 0
    pub totalled : k.total ≡ k.subtotal +ℤ k.tax -ℤ pos k.discount

  -- A call of `addItem`, `updateItem` or `removeItem` that does not throw leaves the cart with the sum of
  -- its lines, 12 percent tax on that, rounded to whole centavos, no shipping, and all of it less the
  -- discount as its total. `clearCart` is not among these calls.
  pub run-Charged :
      (c : String) (now : ℕ) (call : LineCall s) (db : Db)
      → (run s call db c now).1 ≡ ok tt
      → (k : Cart) × Charged c (run s call db c now).0 k
  run-Charged c now call db h =
      let (k, here, subtotal, tax, shipping, total) = run-Balanced s c now call db h in
      (
        k,
        record {
          here = here;
          summed = subtotal ∙ subtotal_of-sum (cart_items (run s call db c now).0 c);
          taxed = subst (λ x. Taxed x k.subtotal) (sym tax) (tax_on-Taxed k.subtotal);
          not_shipped = shipping;
          totalled = total ∙ unshipped k.subtotal k.tax k.shipping k.discount shipping;
        },
      )
    where
      unshipped : (a b x : ℤ) (d : ℕ) → x ≡ pos 0 → a +ℤ b +ℤ x -ℤ pos d ≡ a +ℤ b -ℤ pos d
      unshipped a b x d h = omega (int_laws, ap pos_part h, ap neg_part h)
