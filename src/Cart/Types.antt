-- ===== src/Cart/Types.antt =====
-- The data of the cart: the models of prisma/schema.prisma as far as src/modules/cart and the creation
-- of an order from a cart read or write them. Amounts are whole centavos, weights whole grams.
use mash_backend.Prelude.{ℕ, String, Bool, Option, List, string_eq}
use mash_backend.Prelude.Int.{ℤ}

pub data CartStatus : Type 0 where
  active completed abandoned expired merged : CartStatus

pub record Product : Type 0 where
  pub price : ℕ
  pub stock : ℤ
  pub max_cart_qty : Option ℕ
  pub weight : Option ℕ
  pub is_active : Bool

pub record Cart : Type 0 where
  pub user_id : Option String
  pub session_id : Option String
  pub status : CartStatus
  pub subtotal : ℤ
  pub tax : ℤ
  pub shipping : ℤ
  pub discount : ℕ
  pub total : ℤ
  pub last_activity_at : Option ℕ
  pub converted_at : Option ℕ

pub data Reason : Type 0 where
  no_longer_available out_of_stock : Reason

pub record CartItem : Type 0 where
  pub cart_id : String
  pub product_id : String
  pub quantity : ℤ
  pub price : ℕ
  pub original_price : ℕ
  pub subtotal : ℤ
  pub discount : ℕ
  pub total : ℤ
  pub is_available : Bool
  pub unavailable_reason : Option Reason
  pub customization : Option String

-- The data of an order made of a cart, and of the payment made with it.
pub record SoldItem : Type 0 where
  pub product_id : String
  pub quantity : ℤ
  pub price : ℕ
  pub total : ℤ

pub record Sale : Type 0 where
  pub order_number : String
  pub user_id : String
  pub subtotal : ℤ
  pub tax : ℤ
  pub shipping : ℤ
  pub discount : ℕ
  pub total : ℤ
  pub order_items : List SoldItem
  pub payment_amount : ℤ

pub data Error : Type 0 where
  not_found bad_request record_missing : Error

pub data Result {ℓ} (A : Type ℓ) : Type ℓ where
  ok : A → Result A
  err : Error → Result A
