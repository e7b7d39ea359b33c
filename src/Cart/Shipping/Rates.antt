-- ===== src/Cart/Shipping/Rates.antt =====
-- The costs and the choice of the shipping methods (shipping.service.ts).
use mash_backend.Prelude.{
  ℕ, ◌+◌, ◌*◌, ◌/◌, ◌≤◌, ◌≡◌, refl, inl, inr, some, arith, if◌then◌else◌, Bool-cases, ◌&&◌, not,
}
use mash_backend.Prelude.Int.{ℤ, pos_part, ◌≤ℤ◌}
use mash_backend.Cart.Shipping.{
  ShippingAddress, Region, ncr, luzon_north, luzon_south, visayas, mindanao, ShippingMethod,
  standard, express, same_day, base_rate, multiplier, determine_region, weight_surcharge,
  calculate_shipping, get_shipping_options, estimate_shipping, option_of, answer, is_ncr, is_method,
}

multiplier_bounds : (r : Region) → (10 ≤ multiplier r) × (multiplier r ≤ 17)
unfolding multiplier
multiplier_bounds ncr = (omega arith, omega arith)
multiplier_bounds luzon_north = (omega arith, omega arith)
multiplier_bounds luzon_south = (omega arith, omega arith)
multiplier_bounds visayas = (omega arith, omega arith)
multiplier_bounds mindanao = (omega arith, omega arith)

weight_surcharge_mono : (v w : ℤ) → v ≤ℤ w → weight_surcharge v ≤ weight_surcharge w
unfolding weight_surcharge
weight_surcharge_mono v w h = ground arith

at_least :
    (m : ShippingMethod) (r : Region) (n : ℕ) → base_rate m ≤ base_rate m * multiplier r / 10 + n
unfolding base_rate
at_least standard r n = omega (arith, multiplier_bounds r)
at_least express r n = omega (arith, multiplier_bounds r)
at_least same_day r n = omega (arith, multiplier_bounds r)

surcharge_le : (w : ℤ) → weight_surcharge w ≤ pos_part w * 2
unfolding weight_surcharge
surcharge_le w = ground arith

at_most :
    (m : ShippingMethod) (r : Region) (n : ℕ)
    → (base_rate m * multiplier r / 10 + n) * 10 ≤ base_rate m * 17 + n * 10
unfolding base_rate
at_most standard r n = omega (arith, multiplier_bounds r)
at_most express r n = omega (arith, multiplier_bounds r)
at_most same_day r n = omega (arith, multiplier_bounds r)

dearer :
    (r : Region)
    → (base_rate standard * multiplier r / 10 ≤ base_rate express * multiplier r / 10)
      × (base_rate express * multiplier r / 10 ≤ base_rate same_day * multiplier r / 10)
unfolding base_rate
dearer r = (omega arith, omega arith)

-- Every cost is at least the base rate of its method and at most 1.7 times that, with 20 pesos more for
-- each kilogram over the first. It falls neither with the weight nor from STANDARD over EXPRESS to
-- SAME_DAY.
pub calculate_shipping_bounds :
    (v w : ℤ) (a : ShippingAddress) (m : ShippingMethod)
    → v ≤ℤ w
    → (base_rate m ≤ calculate_shipping w a m)
      × (calculate_shipping w a m * 10 ≤ base_rate m * 17 + pos_part w * 20)
      × (calculate_shipping v a m ≤ calculate_shipping w a m)
      × (calculate_shipping w a standard ≤ calculate_shipping w a express)
      × (calculate_shipping w a express ≤ calculate_shipping w a same_day)
unfolding calculate_shipping
calculate_shipping_bounds v w a m h =
    let r = determine_region a in
    let heavier = weight_surcharge_mono v w h in
    let (cheap, dear) = dearer r in
    (
      at_least m r (weight_surcharge w),
      omega (arith, at_most m r (weight_surcharge w), surcharge_le w),
      omega (arith, heavier),
      omega (arith, cheap),
      omega (arith, dear),
    )

-- The method that is used where `m` is preferred.
abbrev pub chosen : Region → ShippingMethod → ShippingMethod
chosen r m = if is_method m same_day && not (is_ncr r) then standard else m

-- The estimate is always there, with the preferred method, or with STANDARD where SAME_DAY is preferred
-- outside the capital region, at the cost and in the days of that method.
pub estimate_shipping-chosen :
    (w : ℤ) (a : ShippingAddress) (m : ShippingMethod)
    → estimate_shipping w a m
      ≡ some (answer (get_shipping_options w a) (option_of w a (chosen (determine_region a) m)))
unfolding estimate_shipping get_shipping_options option_of
estimate_shipping-chosen w a standard = refl
estimate_shipping-chosen w a express = refl
estimate_shipping-chosen w a same_day = elim (Bool-cases (is_ncr (determine_region a))) [
  | inl e ↦ ground (arith, e)
  | inr e ↦ ground (arith, e)
]
