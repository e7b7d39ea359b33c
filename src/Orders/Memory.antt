-- ===== src/Orders/Memory.antt =====
-- A database in memory: two maps that obey the laws of the interface.
use mash_backend.Prelude.{◌≡◌, refl, String, [], ◌∷◌, arith, string_eq, Map, get, put, get-put}
use mash_backend.Orders.Types.{Order, Product}
use mash_backend.Prelude.Tables.{mapped, adjust, get-adjust}
use mash_backend.Orders.Database.{Store, pay_in}

pub record Tables : Type 0 where
  pub orders : Map String Order
  pub products : Map String Product

unfoldable pub each : {V : Type 0} → (V → V) → Map String V → Map String V
each f [] = []
each f ((j, v) ∷ m) = (j, f v) ∷ each f m

pub get-each :
    {V : Type 0} (j : String) (f : V → V) (m : Map String V) → get j (each f m) ≡ mapped f (get j m)
unfolding get each
get-each j f [] = refl
get-each j f ((i, v) ∷ m) = ground (arith, get-each j f m)

abbrev pub memory : Store
memory = record {
  Db = Tables;
  find_order = λ db id. get id db.orders;
  find_product = λ db id. get id db.products;
  create_order = λ db id o. record db { orders = put id o db.orders };
  update_order = λ db id f. record db { orders = adjust id f db.orders };
  update_product = λ db id f. record db { products = adjust id f db.products };
  update_payment = λ db id f. record db { orders = each (pay_in id f) db.orders };
  order-create = λ db id j o. get-put j id o db.orders;
  product-create = λ db id j o. refl;
  order-update = λ db id j f. get-adjust id j f db.orders;
  product-update = λ db id j f. refl;
  product-update_product = λ db id j f. get-adjust id j f db.products;
  order-update_product = λ db id j f. refl;
  order-update_payment = λ db id j f. get-each j (pay_in id f) db.orders;
  product-update_payment = λ db id j f. refl;
}
