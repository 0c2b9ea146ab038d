-- ===== src/Currency/Registry.antt =====
-- backend/app/domain/currency/repository.py: the listings of currencies and rates, and the upsert of
-- a currency; and the provider of integrations/exchange_rate.py that answers with fixed rates.
use neo_store.Result.{Result, ok}
use neo_store.Decimal.{Decimal}
use neo_store.Prelude.Text.{Text, text_lt, text_eq, upper}
use neo_store.Currency.{CurrencyTables, Currency, ExchangeRate, set_entry}
use neo_store.Prelude.{List, sort_by, ◌∷◌, if◌then◌else◌, select, []}

-- `CurrencyRepository.list_active`, which `CurrencyService.list_active` passes on
unfoldable pub list_active : CurrencyTables → List Currency
list_active t =
    sort_by (λ (a b : Currency). text_lt a.code b.code)
      (select (λ (c : Currency). c.is_active) t.currencies)

-- `CurrencyRepository.list_rates`
unfoldable pub list_rates : Text → CurrencyTables → List ExchangeRate
list_rates base t =
    sort_by (λ (a b : ExchangeRate). text_lt a.quote_code b.quote_code)
      (select (λ (r : ExchangeRate). text_eq r.base_code (upper base)) t.rates)

-- The row of a currency assigned, or put at the end.
unfoldable pub put_currency : Currency → List Currency → List Currency
put_currency currency [] = currency ∷ []
put_currency currency (c ∷ cs) =
    let rest = put_currency currency cs in
    if text_eq c.code (upper currency.code)
    then record c {
      name = currency.name;
      symbol = currency.symbol;
      decimal_places = currency.decimal_places;
      is_active = currency.is_active;
    }
      ∷ cs
    else c ∷ rest

-- `CurrencyRepository.upsert_currency`
unfoldable pub upsert_currency : Currency → CurrencyTables → CurrencyTables
upsert_currency currency t = record t { currencies = put_currency currency t.currencies }

-- `StaticRateProvider`: the rates that it is made with, by their codes in capital letters
unfoldable pub static_rates : List (Text × Decimal) → List (Text × Decimal) → List (Text × Decimal)
static_rates [] rates = rates
static_rates ((code, rate) ∷ rest) rates = static_rates rest (set_entry (upper code) rate rates)

unfoldable pub static_fetch : List (Text × Decimal) → Result (List (Text × Decimal))
static_fetch rates = ok (static_rates rates [])
