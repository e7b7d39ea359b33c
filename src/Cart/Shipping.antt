-- ===== src/Cart/Shipping.antt =====
-- src/modules/cart/shipping.service.ts: what shipping costs, and which methods there are. Costs are whole
-- centavos and weights whole grams, so no cost needs rounding. Multipliers are in tenths.
use mash_backend.Prelude.{
  ℕ, ◌+◌, ◌-◌, ◌*◌, ◌/◌, String, Bool, true, false, not, ◌&&◌, ◌||◌, Option, none, some, List, [],
  ◌∷◌, ltb, if◌then◌else◌, ◌===◌, string_eq, find, ◌++◌,
}
use mash_backend.Prelude.Int.{ℤ, pos, pos_part, ltb_ℤ}
use mash_backend.Prelude.Texts.{codes, text_includes}
pub mod Rates

-- `region` holds the code points of the region's name in upper case, as every reader of it takes it.
pub record ShippingAddress : Type 0 where
  pub region : List ℕ
  pub province : String
  pub city : String
  pub barangay : String
  pub address_line1 : String

pub data Region : Type 0 where
  ncr luzon_north luzon_south visayas mindanao : Region

pub data ShippingMethod : Type 0 where
  standard express same_day : ShippingMethod

pub record ShippingOption : Type 0 where
  pub method : ShippingMethod
  pub cost : ℕ
  pub estimated_days : ℕ

pub record ShippingCalculation : Type 0 where
  pub selected_method : ShippingMethod
  pub cost : ℕ
  pub estimated_days : ℕ
  pub available_options : List ShippingOption

unfoldable pub base_rate : ShippingMethod → ℕ
base_rate standard = 5000
base_rate express = 15000
base_rate same_day = 30000

unfoldable pub multiplier : Region → ℕ
multiplier ncr = 10
multiplier luzon_north = 13
multiplier luzon_south = 12
multiplier visayas = 15
multiplier mindanao = 17

-- Whether the name has one of the words in it.
unfoldable pub names_any : List ℕ → List String → Bool
unfolding text_includes
names_any region [] = false
names_any region (w ∷ ws) = text_includes region (codes w) || names_any region ws

abbrev pub capital_names : List String
capital_names = "NCR" ∷ "METRO MANILA" ∷ "NATIONAL CAPITAL" ∷ []

unfoldable pub determine_region : ShippingAddress → Region
unfolding names_any
determine_region a =
    if names_any a.region capital_names
    then ncr
    else if names_any a.region ("ILOCOS" ∷ "CORDILLERA" ∷ "CAGAYAN" ∷ [])
    then luzon_north
    else if names_any a.region ("CENTRAL LUZON" ∷ "CALABARZON" ∷ "MIMAROPA" ∷ "BICOL" ∷ [])
    then luzon_south
    else if names_any a.region
        ("VISAYAS" ∷ "WESTERN VISAYAS" ∷ "CENTRAL VISAYAS" ∷ "EASTERN VISAYAS" ∷ [])
    then visayas
    else if names_any a.region (
        "MINDANAO" ∷ "ZAMBOANGA" ∷ "NORTHERN MINDANAO" ∷ "DAVAO" ∷ "SOCCSKSARGEN" ∷ "CARAGA"
        ∷ "BARMM" ∷ [])
    then mindanao
    else luzon_south

-- 20 pesos for each kilogram over the first.
unfoldable pub weight_surcharge : ℤ → ℕ
weight_surcharge w = if ltb_ℤ (pos 1000) w then (pos_part w - 1000) * 2 else 0

unfoldable pub calculate_shipping : ℤ → ShippingAddress → ShippingMethod → ℕ
unfolding base_rate multiplier determine_region weight_surcharge
calculate_shipping w a m = base_rate m * multiplier (determine_region a) / 10 + weight_surcharge w

unfoldable pub get_estimated_days : Region → ShippingMethod → ℕ
get_estimated_days r same_day = 0
get_estimated_days ncr _ = 1
get_estimated_days luzon_north standard = 5
get_estimated_days luzon_north express = 2
get_estimated_days luzon_south standard = 4
get_estimated_days luzon_south express = 2
get_estimated_days visayas standard = 6
get_estimated_days visayas express = 3
get_estimated_days mindanao standard = 7
get_estimated_days mindanao express = 3

abbrev pub is_ncr : Region → Bool
is_ncr ncr = true
is_ncr _ = false

abbrev pub is_method : ShippingMethod → ShippingMethod → Bool
is_method standard standard = true
is_method express express = true
is_method same_day same_day = true
is_method _ _ = false

unfoldable pub option_of : ℤ → ShippingAddress → ShippingMethod → ShippingOption
unfolding calculate_shipping determine_region get_estimated_days
option_of w a m = record {
  method = m;
  cost = calculate_shipping w a m;
  estimated_days = get_estimated_days (determine_region a) m;
}

unfoldable pub get_shipping_options : ℤ → ShippingAddress → List ShippingOption
unfolding option_of determine_region
get_shipping_options w a =
    option_of w a standard
    ∷ option_of w a express
    ∷ (if is_ncr (determine_region a) then option_of w a same_day ∷ [] else [])

-- The answer about the option that was selected.
abbrev pub answer : List ShippingOption → ShippingOption → ShippingCalculation
answer all o = record {
  selected_method = o.method;
  cost = o.cost;
  estimated_days = o.estimated_days;
  available_options = all;
}

-- `none` is the exception of reading a field of `undefined`.
abbrev pub first_option : List ShippingOption → Option ShippingOption
first_option [] = none
first_option (o ∷ os) = some o

unfoldable pub estimate_shipping : ℤ → ShippingAddress → ShippingMethod → Option ShippingCalculation
unfolding get_shipping_options
estimate_shipping w a preferred =
    let all = get_shipping_options w a in
    elim (find (λ o. is_method o.method preferred) all) [
      | some o ↦ some (answer all o)
      | none ↦ elim (first_option all) [ some o ↦ some (answer all o) | none ↦ none ]
    ]

-- Whether the text or list of a field is there.
unfoldable pub validate_address : ShippingAddress → Bool
validate_address a =
    not (no_points a.region)
    && not (a.province === "")
    && not (a.city === "")
    && not (a.barangay === "")
    && not (a.address_line1 === "")
  where
    no_points : List ℕ → Bool
    no_points [] = true
    no_points _ = false
