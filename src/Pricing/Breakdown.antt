-- ===== src/Pricing/Breakdown.antt =====
-- How the four amounts of a breakdown fit together: `calculate` and `_shipping_fee`.
use neo_store.Currency.Money.{round_money_shape, round_money-fixed}
use neo_store.Decimal.Laws.{fixed, Fits, add_shaped}
use neo_store.Prelude.Int.{pos, ◌+ℤ◌}
use neo_store.Decimal.{Decimal, of_int, mul, add, leb_decimal}
use neo_store.Prelude.Text.{Text}
use neo_store.Region.{Region}
use neo_store.Pricing.{
  LineInput, PriceBreakdown, calculate, sum_lines, basic_fee, free_from, flat_fee,
}
use neo_store.Catalog.Models.{Product}
use neo_store.Prelude.{List, ◌≡◌, some, if◌then◌else◌, ℕ, arith, refl}
use neo_store.Currency.{CurrencyTables, round_money, decimal_places}
use neo_store.Result.{ok, >>=-eq-ok}

-- The amounts of a breakdown, each rounded from the ones before it.
pub record Steps (t : CurrencyTables) (products : List Product) (lines : List LineInput)
    (region : Region) (cur : Text) (b : PriceBreakdown) : Type 0 where
  pub sum : Decimal
  pub summed : sum_lines t products cur lines (of_int (pos 0)) ≡ ok sum
  pub subtotal : round_money sum cur (some (decimal_places t cur)) ≡ ok b.subtotal
  pub shipping :
      round_money (basic_fee b.subtotal cur) cur (some (decimal_places t cur)) ≡ ok b.shipping_fee
  pub tax :
      round_money
        (mul (add b.subtotal b.shipping_fee) region.tax_rate)
        cur
        (some (decimal_places t cur))
      ≡ ok b.tax
  pub total :
      round_money (add (add b.subtotal b.shipping_fee) b.tax) cur (some (decimal_places t cur))
      ≡ ok b.total

module _ (t : CurrencyTables) (products : List Product) (lines : List LineInput) (region : Region)
    (cur : Text) {b : PriceBreakdown} (priced : calculate t products lines region cur ≡ ok b) where
  pub calculate_amounts : Steps t products lines region cur b
  unfolding calculate
  calculate_amounts =
      let (sum, e1, h1) = >>=-eq-ok (sum_lines t products cur lines (of_int (pos 0))) _ priced in
      let (s, e2, h2) = >>=-eq-ok (round_money sum cur (some (decimal_places t cur))) _ h1 in
      let (f, e3, h3) =
        >>=-eq-ok (round_money (basic_fee s cur) cur (some (decimal_places t cur))) _ h2 in
      let (x, e4, h4) =
        >>=-eq-ok (round_money (mul (add s f) region.tax_rate) cur (some (decimal_places t cur))) _
          h3 in
      let (u, e5, h5) =
        >>=-eq-ok (round_money (add (add s f) x) cur (some (decimal_places t cur))) _ h4 in
      record {
        sum = sum;
        summed = e1;
        subtotal = ground arith;
        shipping = ground arith;
        tax = ground arith;
        total = ground arith;
      }

  abbrev places : ℕ
  places = decimal_places t cur

  -- Every amount of a breakdown has exactly the decimal places of the currency and at most 28
  -- digits.
  pub calculate_shape :
      (b.subtotal ≡ fixed places b.subtotal.coeff)
      × (b.shipping_fee ≡ fixed places b.shipping_fee.coeff)
      × (b.tax ≡ fixed places b.tax.coeff)
      × (b.total ≡ fixed places b.total.coeff)
  calculate_shape =
      let s = calculate_amounts in
      (
        (round_money_shape s.sum b.subtotal cur places s.subtotal).0,
        (round_money_shape (basic_fee b.subtotal cur) b.shipping_fee cur places s.shipping).0,
        (round_money_shape _ b.tax cur places s.tax).0,
        (round_money_shape _ b.total cur places s.total).0,
      )

  -- The total is the exact sum of the subtotal, the shipping fee and the tax: no cent is lost or
  -- made by rounding, as long as the sums have at most 28 digits.
  pub calculate_total :
      Fits (fixed places (b.subtotal.coeff +ℤ b.shipping_fee.coeff))
      → Fits (fixed places (b.subtotal.coeff +ℤ b.shipping_fee.coeff +ℤ b.tax.coeff))
      → b.total ≡ fixed places (b.subtotal.coeff +ℤ b.shipping_fee.coeff +ℤ b.tax.coeff)
  calculate_total fits fits_all =
      let (ps, pf, px, pu) = calculate_shape in
      let sum_fee = add_shaped places b.subtotal b.shipping_fee ps pf fits in
      let base : Decimal = fixed places (b.subtotal.coeff +ℤ b.shipping_fee.coeff) in
      cc (
        calculate_amounts.total,
        sum_fee,
        add_shaped places base b.tax refl px fits_all,
        round_money-fixed cur places (b.subtotal.coeff +ℤ b.shipping_fee.coeff +ℤ b.tax.coeff)
            fits_all,
      )

  -- Shipping is free from the threshold of the currency on, and below it the flat fee, rounded to
  -- the currency.
  pub calculate_shipping :
      round_money
        (if leb_decimal (free_from cur) b.subtotal then of_int (pos 0) else flat_fee cur)
        cur
        (some places)
      ≡ ok b.shipping_fee
  unfolding basic_fee
  calculate_shipping = calculate_amounts.shipping
