-- ===== src/Orders/Placed.antt =====
-- The order that a request asks for (orders.service.ts, `create`).
use mash_backend.Prelude.{
  ℕ, ◌+◌, ◌*◌, ◌≡◌, refl, ◌⊎◌, inl, inr, String, Option, none, some, List, [], ◌∷◌, arith,
  string_eq,
}
use mash_backend.Prelude.Int.{pos, ◌-ℤ◌}
use mash_backend.Orders.Types.{pending, Address, PaymentStatus, OrderItem, Order, CreateOrderDto}
use mash_backend.Orders.{or_zero, subtotal_of, new_order}

-- What the items cost together.
abbrev pub worth : List OrderItem → ℕ
worth [] = 0
worth (i ∷ is) = i.quantity * i.price + worth is

subtotal_of-worth : (is : List OrderItem) → subtotal_of is ≡ worth is
unfolding subtotal_of
subtotal_of-worth [] = refl
subtotal_of-worth (i ∷ is) = grind (arith, subtotal_of-worth is)

-- An amount, 0 where none is given.
abbrev pub given_or_zero : Option ℕ → ℕ
given_or_zero none = 0
given_or_zero (some n) = n

-- The order is what the request asks for, and waits to be paid.
pub record Placed (payment_id order_number : String) (dto : CreateOrderDto) (o : Order)
    : Type 0 where
  pub numbered : o.order_number ≡ order_number
  pub owned : o.user_id ≡ dto.user_id
  pub waits : o.status ≡ pending
  pub ordered_items : o.order_items ≡ dto.items
  pub summed : o.subtotal ≡ worth dto.items
  pub shipped_for : o.shipping ≡ given_or_zero dto.shipping
  pub taxed : o.tax ≡ given_or_zero dto.tax
  pub discounted : o.discount ≡ given_or_zero dto.discount
  pub totalled : o.total ≡ pos (o.subtotal + o.shipping + o.tax) -ℤ pos o.discount
  pub noted : o.notes ≡ dto.notes
  pub sent_to : o.shipping_address ≡ dto.shipping_address
  pub billed_to :
      ((dto.billing_address ≡ none) × (o.billing_address ≡ dto.shipping_address))
      ⊎ (dto.billing_address ≡ some o.billing_address)
  pub payable :
      o.payments
      ≡ record {
        id = payment_id;
        amount = o.total;
        method = dto.payment_method;
        status = PaymentStatus.pending;
        processed_at = none;
      }
        ∷ []
  pub never_moved :
      (o.tracking_number ≡ none)
      × (o.shipped_at ≡ none)
      × (o.delivered_at ≡ none)
      × (o.cancelled_at ≡ none)

or_zero-given : (o : Option ℕ) → or_zero o ≡ given_or_zero o
or_zero-given none = refl
or_zero-given (some n) = refl

pub new_order-Placed :
    (payment_id order_number : String) (dto : CreateOrderDto)
    → Placed payment_id order_number dto (new_order payment_id order_number dto)
unfolding new_order
new_order-Placed payment_id order_number dto = record {
  numbered = refl;
  owned = refl;
  waits = refl;
  ordered_items = refl;
  summed = subtotal_of-worth dto.items;
  shipped_for = or_zero-given dto.shipping;
  taxed = or_zero-given dto.tax;
  discounted = or_zero-given dto.discount;
  totalled = refl;
  noted = refl;
  sent_to = refl;
  billed_to = billed dto.billing_address;
  payable = refl;
  never_moved = (refl, refl, refl, refl);
}
  where
    billed :
        (b : Option Address)
        → ((b ≡ none)
            × (elim b [ none ↦ dto.shipping_address | some a ↦ a ] ≡ dto.shipping_address))
          ⊎ (b ≡ some (elim b [ none ↦ dto.shipping_address | some a ↦ a ]))
    billed none = inl (refl, refl)
    billed (some a) = inr refl
