-- ===== src/Currency.antt =====
-- backend/app/domain/currency and backend/app/integrations/exchange_rate.py: currencies, stored
-- exchange rates, rounding of money, conversion, and the refresh of the rates. Codes are text, a
-- time is a number; what the rate provider answers is an argument.
pub mod Money
pub mod Registry
pub mod Refresh
pub mod Convert
use neo_store.Errors.{plain_error, exchange_rate_unavailable, json_decode_error, attribute_error}
use neo_store.Exec.{Exec, ◌>>=◌, lift, gets, ◌>>◌, modify, pure}
use neo_store.Result.{Result, err, ok}
use neo_store.Decimal.{Decimal, quantize, mul, is_zero, div}
use neo_store.Prelude.Text.{Text, upper, text, text_eq, text_mem}
use neo_store.Prelude.{
  ℕ, ◌+◌, List, Option, none, ◌∷◌, find, Bool, [], ◌++◌, ◌&&◌, ◌||◌, not, is_some, some,
  if◌then◌else◌, ◌==◌,
}

pub record Currency : Type 0 where
  pub code : Text
  pub name : Text
  pub symbol : Text
  pub decimal_places : ℕ
  pub is_active : Bool

pub record ExchangeRate : Type 0 where
  pub base_code : Text
  pub quote_code : Text
  pub rate : Decimal
  pub source : Text
  pub fetched_at : ℕ

pub record CurrencyTables : Type 0 where
  pub currencies : List Currency
  pub rates : List ExchangeRate

-- `ZERO_DECIMAL_CURRENCIES`
abbrev zero_decimal_currencies : List Text
zero_decimal_currencies =
    text "JPY" ∷ text "KRW" ∷ text "VND" ∷ text "CLP" ∷ text "ISK" ∷ text "HUF" ∷ []

-- `THREE_DECIMAL_CURRENCIES`
abbrev three_decimal_currencies : List Text
three_decimal_currencies = text "BHD" ∷ text "JOD" ∷ text "KWD" ∷ text "OMR" ∷ text "TND" ∷ []

unfoldable pub default_decimal_places : Text → ℕ
unfolding upper
default_decimal_places code =
    if text_mem (upper code) zero_decimal_currencies
    then 0
    else if text_mem (upper code) three_decimal_currencies
    then 3
    else 2

unfoldable pub round_money : Decimal → Text → Option ℕ → Result Decimal
round_money amount code decimal_places = elim decimal_places [
  | none ↦ quantize amount (default_decimal_places code)
  | some places ↦ quantize amount places
]

-- `CurrencyRepository.get`
unfoldable pub get_currency : CurrencyTables → Text → Option Currency
get_currency t code = find (λ c. text_eq c.code (upper code)) t.currencies

abbrev pub is_pair : Text → Text → ExchangeRate → Bool
is_pair base quote r = text_eq r.base_code base && text_eq r.quote_code quote

-- `CurrencyRepository.get_rate`
unfoldable pub get_rate : CurrencyTables → Text → Text → Option ExchangeRate
get_rate t base quote = find (is_pair (upper base) (upper quote)) t.rates

-- The assignments to `existing`, on the row that `get_rate` found.
unfoldable pub update_rate :
    Text → Text → Decimal → Text → ℕ → List ExchangeRate → List ExchangeRate
update_rate base quote rate source now [] = []
update_rate base quote rate source now (r ∷ rs) =
    let rest = update_rate base quote rate source now rs in
    if is_pair base quote r
    then record r { rate = rate; source = source; fetched_at = now } ∷ rs
    else r ∷ rest

-- `CurrencyRepository.upsert_rate`
unfoldable pub upsert_rate : Text → Text → Decimal → Text → ℕ → CurrencyTables → CurrencyTables
upsert_rate base quote rate source now t = elim (get_rate t base quote) [
  | none ↦ record t {
    rates =
        t.rates
        ++ record {
          base_code = upper base;
          quote_code = upper quote;
          rate = rate;
          source = source;
          fetched_at = now;
        }
          ∷ [];
  }
  | some existing ↦ record t {
    rates = update_rate (upper base) (upper quote) rate source now t.rates;
  }
]

-- `CurrencyService.decimal_places`
unfoldable pub decimal_places : CurrencyTables → Text → ℕ
decimal_places t code = elim (get_currency t code) [
  | some currency ↦ currency.decimal_places
  | none ↦ default_decimal_places code
]

-- The end of `convert`: the inverse rate, if there is one other than zero.
convert_inverse : Decimal → Text → ℕ → Option ExchangeRate → Result Decimal
convert_inverse amount target places none = err (plain_error exchange_rate_unavailable)
convert_inverse amount target places (some inverse) =
    if is_zero inverse.rate
    then err (plain_error exchange_rate_unavailable)
    else round_money (div amount inverse.rate) target (some places)

unfoldable pub convert : CurrencyTables → Decimal → Text → Text → Result Decimal
unfolding convert_inverse
convert t amount from_code to_code =
    let source = upper from_code in
    let target = upper to_code in
    let places = decimal_places t target in
    if text_eq source target
    then round_money amount target (some places)
    else elim (get_rate t source target) [
      | some direct ↦ round_money (mul amount direct.rate) target (some places)
      | none ↦ convert_inverse amount target places (get_rate t target source)
    ]

-- The loop of `refresh_rates`, with the count of the rows written so far.
refresh_loop : Text → Text → ℕ → List (Text × Decimal) → ℕ → CurrencyTables → ℕ × CurrencyTables
refresh_loop base_code source now [] updated t = (updated, t)
refresh_loop base_code source now ((quote_code, rate) ∷ rest) updated t =
    let quote = upper quote_code in
    let skip = text_eq quote base_code || not (is_some (get_currency t quote)) in
    refresh_loop base_code source now rest (if skip then updated else updated + 1)
      (if skip then t else upsert_rate base_code quote rate source now t)

-- `CurrencyService.refresh_rates`, given what the provider's `fetch` returned or raised, and its
-- `name`
unfoldable pub refresh_rates :
    Text → Text → ℕ → Result (List (Text × Decimal)) → Exec CurrencyTables ℕ
unfolding refresh_loop
refresh_rates base source now fetched = do
  rates ← lift fetched
  t ← gets (λ t. t)
  let (updated, t') = refresh_loop (upper base) source now rates 0 t
  modify (λ _. t')
  pure updated

-- A body: no JSON, JSON that is no object, and an object with its `rates`, if these are an object
-- themselves. A value is `none` where `Decimal(str(value))` raises.
pub data HttpBody : Type 0 where
  no_json no_object : HttpBody
  object : Option (List (Text × Option Decimal)) → HttpBody

-- What the HTTP request of `OpenExchangeRateProvider.fetch` comes back with: no answer, or an answer
-- with its status and its body.
pub data HttpAnswer : Type 0 where
  unreachable : HttpAnswer
  answered : ℕ → HttpBody → HttpAnswer

-- `rates[k] = v`
unfoldable pub set_entry : Text → Decimal → List (Text × Decimal) → List (Text × Decimal)
set_entry k v [] = (k, v) ∷ []
set_entry k v ((j, w) ∷ d) = if text_eq j k then (k, v) ∷ d else (j, w) ∷ set_entry k v d

usable_rates : List (Text × Option Decimal) → List (Text × Decimal) → List (Text × Decimal)
unfolding set_entry
usable_rates [] rates = rates
usable_rates ((quote, none) ∷ rest) rates = usable_rates rest rates
usable_rates ((quote, some value) ∷ rest) rates =
    usable_rates rest (set_entry (upper quote) value rates)

or_unavailable : List (Text × Decimal) → Result (List (Text × Decimal))
or_unavailable [] = err (plain_error exchange_rate_unavailable)
or_unavailable (r ∷ rs) = ok (r ∷ rs)

-- The rates of the body of an answer with status 200.
read_body : HttpBody → Result (List (Text × Decimal))
unfolding usable_rates or_unavailable
read_body no_json = err json_decode_error
read_body no_object = err attribute_error
read_body (object none) = err (plain_error exchange_rate_unavailable)
read_body (object (some raw)) = or_unavailable (usable_rates raw [])

-- `OpenExchangeRateProvider.fetch`
unfoldable pub fetch : HttpAnswer → Result (List (Text × Decimal))
unfolding read_body
fetch unreachable = err (plain_error exchange_rate_unavailable)
fetch (answered status body) =
    if status == 200 then read_body body else err (plain_error exchange_rate_unavailable)
