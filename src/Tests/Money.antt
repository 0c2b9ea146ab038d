-- ===== src/Tests/Money.antt =====
-- Witnesses for money: rounding, rates and prices.
use neo_store.Currency.Refresh.{
  tracked_count, rate_of, refresh_rates_count, is_tracked, latest, refresh_rates_effect,
}
use neo_store.Pricing.Lines.{line_sum, calculate_subtotal}
use neo_store.Pricing.Breakdown.{calculate_total}
use neo_store.Errors.{plain_error, exchange_rate_unavailable, Exception}
use neo_store.Decimal.Laws.{fixed}
use neo_store.Catalog.Models.{find_variant, variant_of}
use neo_store.Pricing.{
  calculate, PriceBreakdown, LineInput, unit_price, explicit_price, sum_lines, basic_fee,
}
use neo_store.Currency.Money.{round_money_nearest}
use neo_store.Result.{ok, err}
use neo_store.Currency.Convert.{has_inverse, convert_unavailable_iff}
use neo_store.Prelude.Text.{text, upper, upper_char, Text, text_eq}
use neo_store.Tests.Data.{currencies, mug, america}
use neo_store.Prelude.Int.{pos, ◌+ℤ◌, ◌*ℤ◌, negsuc, neg_part, pos_part}
use neo_store.Decimal.{
  Decimal, quantize, context, with_sign, half_up, add, mul, half_even, leb_decimal,
}
use neo_store.Prelude.{
  ◌≡◌, some, ◌*◌, ◌≤◌, ◌+◌, ◌<◌, arith, refl, List, ◌∷◌, [], ◌↔◌, ◌≢◌, none, false, if◌then◌else◌,
  ◌&&◌,
}
use neo_store.Currency.{
  round_money, decimal_places, convert, get_currency, default_decimal_places, get_rate,
  refresh_rates,
}

-- 12.345, and the same rounded to cents.
abbrev fine : Decimal
fine = record { coeff = pos 12345; places = 3 }

abbrev cents : Decimal
cents = record { coeff = pos 1235; places = 2 }

rounded : round_money fine (text "USD") (some 2) ≡ ok cents
unfolding round_money quantize context with_sign half_up
rounded = refl

changed : convert currencies fine (text "usd") (text "USD") ≡ ok cents
unfolding convert decimal_places get_currency upper upper_char round_money quantize context
    with_sign half_up
changed = refl

-- -12.345, and the same rounded to cents.
abbrev owed_fine : Decimal
owed_fine = record { coeff = negsuc 12344; places = 3 }

abbrev owed_cents : Decimal
owed_cents = record { coeff = negsuc 1234; places = 2 }

owed_rounded : round_money owed_fine (text "USD") (some 2) ≡ ok owed_cents
unfolding round_money quantize context with_sign half_up
owed_rounded = refl

round_money_nearest_example :
    (owed_cents.places ≡ 2)
    × (2 * (1235 * 10) ≤ 2 * 12345 + 10)
    × (2 * 12345 < 2 * (1235 * 10) + 10)
    × (neg_part owed_fine.coeff ≡ 0 → neg_part owed_cents.coeff ≡ 0)
    × (pos_part owed_fine.coeff ≡ 0 → pos_part owed_cents.coeff ≡ 0)
round_money_nearest_example =
    round_money_nearest owed_fine owed_cents (text "USD") (some 2) (omega arith) owed_rounded

convert_unavailable_iff_example :
    (convert currencies fine (text "EUR") (text "USD")
      ≡ err (plain_error exchange_rate_unavailable))
    ↔ ((upper (text "EUR") ≢ upper (text "USD"))
        × (get_rate currencies (text "EUR") (text "USD") ≡ none)
        × (has_inverse (get_rate currencies (text "USD") (text "EUR")) ≡ false))
convert_unavailable_iff_example = convert_unavailable_iff currencies fine (text "EUR") (text "USD")

abbrev inputs : List LineInput
inputs = record { variant_id = 7; quantity = pos 2 } ∷ []

abbrev breakdown : PriceBreakdown
breakdown = record {
  subtotal = record { coeff = pos 2500; places = 2 };
  shipping_fee = record { coeff = pos 990; places = 2 };
  tax = record { coeff = pos 279; places = 2 };
  total = record { coeff = pos 3769; places = 2 };
  currency = text "USD";
}

priced : calculate currencies (mug ∷ []) inputs america (text "USD") ≡ ok breakdown
unfolding calculate decimal_places get_currency upper upper_char default_decimal_places sum_lines
    find_variant variant_of unit_price explicit_price convert round_money quantize context add mul
    ◌+ℤ◌ ◌*ℤ◌ with_sign half_up half_even basic_fee leb_decimal
priced = refl

calculate_subtotal_example :
    breakdown.subtotal
    ≡ fixed
        (decimal_places currencies (text "USD"))
        (line_sum currencies (mug ∷ []) (text "USD") inputs)
unfolding find_variant variant_of unit_price explicit_price convert round_money quantize context
    decimal_places get_currency upper upper_char with_sign half_up ◌*ℤ◌
calculate_subtotal_example =
    calculate_subtotal currencies (mug ∷ []) inputs america (text "USD") priced (omega arith)

calculate_total_example :
    breakdown.total
    ≡ fixed
        (decimal_places currencies (text "USD"))
        (breakdown.subtotal.coeff +ℤ breakdown.shipping_fee.coeff +ℤ breakdown.tax.coeff)
unfolding ◌+ℤ◌
calculate_total_example =
    calculate_total currencies (mug ∷ []) inputs america (text "USD") priced (omega arith)
      (omega arith)

refresh_rates_effect_example :
    ((e : Exception)
      → refresh_rates (text "EUR") (text "static") 5 (err e) currencies ≡ (err e, currencies))
    × ((rates : List (Text × Decimal)) (b q : Text)
        → rate_of
            (get_rate (refresh_rates (text "EUR") (text "static") 5 (ok rates) currencies).1 b q)
          ≡ (if text_eq (upper (text "EUR")) (upper b) && is_tracked currencies (text "EUR") q
              then latest (upper q) rates (rate_of (get_rate currencies b q))
              else rate_of (get_rate currencies b q)))
refresh_rates_effect_example = refresh_rates_effect (text "EUR") (text "static") 5 currencies

refresh_rates_count_example :
    (refresh_rates
      (text "EUR")
      (text "static")
      5
      (ok ((text "usd", fine) ∷ (text "eur", cents) ∷ []))
      currencies).0
    ≡ ok (tracked_count currencies (text "EUR") ((text "usd", fine) ∷ (text "eur", cents) ∷ []))
refresh_rates_count_example =
    refresh_rates_count (text "EUR") (text "static") 5
      ((text "usd", fine) ∷ (text "eur", cents) ∷ []) currencies
