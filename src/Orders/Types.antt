-- ===== src/Orders/Types.antt =====
-- The data of the orders: the enums and models of prisma/schema.prisma, as far as the handlers of
-- src/modules/orders/orders.service.ts read or write them. Amounts are whole centavos.
use mash_backend.Prelude.{ℕ, String, Option, List}
use mash_backend.Prelude.Int.{ℤ}

pub data OrderStatus : Type 0 where
  pending confirmed processing shipped delivered cancelled refunded : OrderStatus

pub data PaymentStatus : Type 0 where
  pending paid failed refunded : PaymentStatus

pub data UserRole : Type 0 where
  user grower buyer admin super_admin : UserRole

pub record CurrentUser : Type 0 where
  pub id : String
  pub role : UserRole

pub record Product : Type 0 where
  pub name : String
  pub stock : ℤ

-- `ShippingAddressDto`.
pub record Address : Type 0 where
  pub street : String
  pub city : String
  pub state : String
  pub zip_code : String
  pub country : String

pub data PaymentMethod : Type 0 where
  credit_card debit_card paypal gcash maya bank_transfer cod : PaymentMethod

pub record OrderItem : Type 0 where
  pub product_id : String
  pub quantity : ℕ
  pub price : ℕ

pub record Payment : Type 0 where
  pub id : String
  pub amount : ℤ
  pub method : PaymentMethod
  pub status : PaymentStatus
  pub processed_at : Option ℕ

pub record Order : Type 0 where
  pub order_number : String
  pub user_id : String
  pub status : OrderStatus
  pub subtotal : ℕ
  pub shipping : ℕ
  pub tax : ℕ
  pub discount : ℕ
  pub total : ℤ
  pub shipping_address : Address
  pub billing_address : Address
  pub notes : Option String
  pub order_items : List OrderItem
  pub payments : List Payment
  pub tracking_number : Option String
  pub shipped_at : Option ℕ
  pub delivered_at : Option ℕ
  pub cancelled_at : Option ℕ

pub record CreateOrderDto : Type 0 where
  pub user_id : String
  pub items : List OrderItem
  pub shipping_address : Address
  pub billing_address : Option Address
  pub payment_method : PaymentMethod
  pub notes : Option String
  pub shipping : Option ℕ
  pub tax : Option ℕ
  pub discount : Option ℕ

pub data Error : Type 0 where
  not_found forbidden bad_request record_missing : Error

pub data Result {ℓ} (A : Type ℓ) : Type ℓ where
  ok : A → Result A
  err : Error → Result A
