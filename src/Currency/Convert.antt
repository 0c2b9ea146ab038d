-- ===== src/Currency/Convert.antt =====
-- Conversion between currencies: `convert` of backend/app/domain/currency/service.py.
use neo_store.Decimal.Laws.{quantize_shape}
use neo_store.Errors.{plain_error, exchange_rate_unavailable}
use neo_store.Result.{err, ok}
use neo_store.Prelude.Text.{Text, upper, upper_idem, text_eq_iff}
use neo_store.Decimal.{Decimal, is_zero, quantize}
use neo_store.Prelude.{Option, Bool, ◌≡◌, false, some, not, ◌↔◌, none, ◌≢◌, arith, ℕ}
use neo_store.Currency.{
  convert, CurrencyTables, decimal_places, ExchangeRate, get_currency, default_decimal_places,
  get_rate, round_money,
}

get_currency-upper :
    (t : CurrencyTables) (code : Text) → get_currency t (upper code) ≡ get_currency t code
unfolding get_currency
get_currency-upper t code = rw (upper_idem code)

get_rate-upper :
    (t : CurrencyTables) (base quote : Text)
    → get_rate t (upper base) (upper quote) ≡ get_rate t base quote
unfolding get_rate
get_rate-upper t base quote = rw (upper_idem base, upper_idem quote)

default_decimal_places-upper :
    (code : Text) → default_decimal_places (upper code) ≡ default_decimal_places code
default_decimal_places-upper code = unfold default_decimal_places in rw (upper_idem code)

decimal_places-upper :
    (t : CurrencyTables) (code : Text) → decimal_places t (upper code) ≡ decimal_places t code
unfolding decimal_places
decimal_places-upper t code =
    ground (arith, get_currency-upper t code, default_decimal_places-upper code)

round_money_places :
    (amount r : Decimal) (code : Text) (p : ℕ)
    → round_money amount code (some p) ≡ ok r
    → r.places ≡ p
unfolding round_money
round_money_places amount r code p e = (quantize_shape amount r p e).0

round_money-ne-unavailable :
    (amount : Decimal) (code : Text) (p : ℕ)
    → round_money amount code (some p) ≢ err (plain_error exchange_rate_unavailable)
unfolding round_money quantize plain_error
round_money-ne-unavailable amount code p e = ground arith

-- A converted amount has exactly the decimal places of the target currency, by whichever rate it
-- was converted.
pub convert_places :
    (t : CurrencyTables) (amount r : Decimal) (from_code to_code : Text)
    → convert t amount from_code to_code ≡ ok r
    → r.places ≡ decimal_places t to_code
unfolding convert
convert_places t amount r from_code to_code e =
    grind (arith, round_money_places, decimal_places-upper t to_code)

abbrev pub has_inverse : Option ExchangeRate → Bool
has_inverse none = false
has_inverse (some row) = not (is_zero row.rate)

-- A conversion is refused as unavailable exactly when the currencies differ, no direct rate is
-- stored, and no inverse rate other than zero is.
pub convert_unavailable_iff :
    (t : CurrencyTables) (amount : Decimal) (from_code to_code : Text)
    → (convert t amount from_code to_code ≡ err (plain_error exchange_rate_unavailable)) ↔ (
        (upper from_code ≢ upper to_code)
        × (get_rate t from_code to_code ≡ none)
        × (has_inverse (get_rate t to_code from_code) ≡ false))
unfolding convert
convert_unavailable_iff t amount from_code to_code = grind (
  arith,
  round_money-ne-unavailable,
  text_eq_iff (upper from_code) (upper to_code),
  get_rate-upper t from_code to_code,
  get_rate-upper t to_code from_code,
)
