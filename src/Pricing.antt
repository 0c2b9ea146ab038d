-- ===== src/Pricing.antt =====
-- backend/app/domain/pricing: unit prices, the breakdown of a basket, and shipping. The tables
-- that are read are arguments.
pub mod Breakdown
pub mod Lines
use neo_store.Region.{Region}
use neo_store.Prelude.Text.{Text, text_eq, upper, text}
use neo_store.Decimal.{Decimal, of_int, leb_decimal, mul, add}
use neo_store.Currency.{CurrencyTables, decimal_places, round_money, convert}
use neo_store.Catalog.Models.{ProductVariant, Product, VariantPrice, find_variant}
use neo_store.Prelude.Int.{ℤ, pos}
use mathlib.Core.Option
use neo_store.Result.{◌>>=◌, Result, ok}
use neo_store.Prelude.{ℕ, if◌then◌else◌, List, Bool, Option, find, some, ◌∷◌, none, []}

pub record LineInput : Type 0 where
  pub variant_id : ℕ
  pub quantity : ℤ

pub record PriceBreakdown : Type 0 where
  pub currency : Text
  pub subtotal : Decimal
  pub shipping_fee : Decimal
  pub tax : Decimal
  pub total : Decimal

-- `PricingService.explicit_price`
unfoldable pub explicit_price : ProductVariant → Text → Option Decimal
explicit_price variant currency_code =
    Option.map (λ (p : VariantPrice). p.amount)
      (find (λ p. text_eq p.currency_code (upper currency_code)) variant.prices)

-- `PricingService.unit_price`, for a variant and its product
unfoldable pub unit_price : CurrencyTables → Product × ProductVariant → Text → Result Decimal
unit_price t (product, variant) currency_code =
    let places = decimal_places t currency_code in
    elim (explicit_price variant currency_code) [
      | some explicit ↦ round_money explicit currency_code (some places)
      | none ↦ do
        converted ← convert t product.base_price product.base_currency currency_code
        round_money converted currency_code (some places)
    ]

-- The threshold and the flat fee of `_shipping_fee`.
abbrev pub is_yen : Text → Bool
is_yen currency_code = text_eq (upper currency_code) (text "JPY")

abbrev pub free_from : Text → Decimal
free_from currency_code = of_int (pos (if is_yen currency_code then 10000 else 100))

abbrev pub flat_fee : Text → Decimal
flat_fee currency_code =
    if is_yen currency_code then of_int (pos 990) else record { coeff = pos 990; places = 2 }

-- `PricingService._shipping_fee`
unfoldable pub basic_fee : Decimal → Text → Decimal
basic_fee subtotal currency_code =
    if leb_decimal (free_from currency_code) subtotal
    then of_int (pos 0)
    else flat_fee currency_code

-- The loop over the lines; a line whose variant is missing is passed over.
unfoldable pub sum_lines :
    CurrencyTables → List Product → Text → List LineInput → Decimal → Result Decimal
sum_lines t products currency_code [] subtotal = ok subtotal
sum_lines t products currency_code (line ∷ lines) subtotal =
    elim (find_variant line.variant_id products) [
      | none ↦ sum_lines t products currency_code lines subtotal
      | some found ↦ do
        unit ← unit_price t found currency_code
        sum_lines t products currency_code lines (add subtotal (mul unit (of_int line.quantity)))
    ]

-- `PricingService.calculate`
unfoldable pub calculate :
    CurrencyTables → List Product → List LineInput → Region → Text → Result PriceBreakdown
calculate t products lines region currency_code = do
  let places = decimal_places t currency_code
  sum ← sum_lines t products currency_code lines (of_int (pos 0))
  subtotal ← round_money sum currency_code (some places)
  shipping_fee ← round_money (basic_fee subtotal currency_code) currency_code (some places)
  tax ← round_money (mul (add subtotal shipping_fee) region.tax_rate) currency_code (some places)
  total ← round_money (add (add subtotal shipping_fee) tax) currency_code (some places)
  ok (record {
    currency = upper currency_code;
    subtotal = subtotal;
    shipping_fee = shipping_fee;
    tax = tax;
    total = total;
  })
