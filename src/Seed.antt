-- ===== src/Seed.antt =====
-- backend/app/seed.py: the reference data of a new shop, its locales, currencies, regions,
-- administrator and exchange rates. The seeding of categories and products is left out.
pub mod Again
pub mod Rates
pub mod Rerun
use neo_store.Errors.{exchange_rate_unavailable, Exception, domain}
use neo_store.Result.{ok, err, Result, ◌>>=◌}
use neo_store.Prelude.Int.{pos}
use neo_store.Currency.Registry.{upsert_currency}
use neo_store.Decimal.{Decimal}
use neo_store.Security.{AdminUser, find_admin}
use neo_store.Prelude.Text.{Text, text, text_eq, text_mem}
use neo_store.Region.{Region, get_region}
use neo_store.Locale.{Locale}
use neo_store.Currency.{
  Currency, CurrencyTables, HttpAnswer, get_currency, refresh_rates, fetch, get_rate, upsert_rate,
}
use neo_store.Prelude.{
  ◌++◌, Bool, List, any, is_some, select, ℕ, ◌∷◌, [], if◌then◌else◌, not, true, ◌==◌, false, map,
  none, some, ◌||◌, ◌&&◌, ◌+◌,
}

-- A label of the report.
pub data Label : Type 0 where
  locale_label : Text → Label
  currency_label : Text → Label
  region_label : Text → Text → Label
  admin_label : Text → Label
  password_reset_label : Text → Label
  live_rates_label : ℕ → Label
  fallback_rates_label : ℕ → Label
  rates_label : Label
  provider_unavailable : Label

pub record SeedReport : Type 0 where
  pub created : List Label
  pub skipped : List Label
  pub notes : List Label

-- `SeedReport.created_`, `skipped_` and `note`
abbrev pub add_created : Label → SeedReport → SeedReport
add_created label report = record report { created = report.created ++ label ∷ [] }

abbrev pub add_skipped : Label → SeedReport → SeedReport
add_skipped label report = record report { skipped = report.skipped ++ label ∷ [] }

abbrev pub add_note : Label → SeedReport → SeedReport
add_note label report = record report { notes = report.notes ++ label ∷ [] }

-- The loop over the specifications: what is present is skipped, and the rest is added.
unfoldable pub seed_missing :
    {A S : Type 0}
    → (A → S → Bool)
    → (A → S → S)
    → (A → Label)
    → List A
    → S
    → SeedReport
    → S × SeedReport
seed_missing is_present add label [] s report = (s, report)
seed_missing is_present add label (spec ∷ specs) s report =
    let present = is_present spec s in
    seed_missing is_present add label specs (if present then s else add spec s)
      (if present then add_skipped (label spec) report else add_created (label spec) report)

abbrev locale_spec : Text → Text → Bool → ℕ → Locale
locale_spec code name is_default position = record {
  code = code;
  name = name;
  is_active = true;
  is_default = is_default;
  position = pos position;
}

-- `LOCALES`
unfoldable pub locales : List Locale
locales =
    locale_spec (text "zh-CN") (text "简体中文") true 0
    ∷ locale_spec (text "en") (text "English") false 1
    ∷ locale_spec (text "ja") (text "日本語") false 2
    ∷ []

abbrev currency_spec : Text → Text → Text → ℕ → Currency
currency_spec code name symbol decimal_places = record {
  code = code;
  name = name;
  symbol = symbol;
  decimal_places = decimal_places;
  is_active = true;
}

-- `CURRENCIES`
unfoldable pub currencies : List Currency
currencies =
    currency_spec (text "USD") (text "US Dollar") (text "$") 2
    ∷ currency_spec (text "CNY") (text "Chinese Yuan") (text "¥") 2
    ∷ currency_spec (text "EUR") (text "Euro") (text "€") 2
    ∷ currency_spec (text "GBP") (text "Pound Sterling") (text "£") 2
    ∷ currency_spec (text "JPY") (text "Japanese Yen") (text "¥") 0
    ∷ []

-- A tax rate has four decimal places.
abbrev region_spec : Text → Text → Text → ℕ → Bool → ℕ → List Text → Region
region_spec code name currency_code tax is_default position locales = record {
  code = code;
  name = name;
  currency_code = currency_code;
  tax_rate = record { coeff = pos tax; places = 4 };
  is_default = is_default;
  position = pos position;
  locale_links = locales;
  payment_method_links = record { provider_code = text "mock"; is_active = true } ∷ [];
}

-- `REGIONS`
unfoldable pub regions : List Region
regions =
    region_spec (text "us") (text "United States") (text "USD") 700 true 0
      (text "en" ∷ text "zh-CN" ∷ [])
    ∷ region_spec (text "cn") (text "中国") (text "CNY") 600 false 1 (text "zh-CN" ∷ text "en" ∷ [])
    ∷ region_spec (text "eu") (text "European Union") (text "EUR") 2100 false 2 (text "en" ∷ [])
    ∷ region_spec (text "jp") (text "日本") (text "JPY") 1000 false 3 (text "ja" ∷ text "en" ∷ [])
    ∷ []

-- `FALLBACK_RATES`
unfoldable pub fallback_rates : List (Text × Decimal)
fallback_rates =
    (text "CNY", record { coeff = pos 725; places = 2 })
    ∷ (text "EUR", record { coeff = pos 92; places = 2 })
    ∷ (text "GBP", record { coeff = pos 79; places = 2 })
    ∷ (text "JPY", record { coeff = pos 15100; places = 2 })
    ∷ []

-- `session.get(Locale, code)`
unfoldable pub has_locale : Locale → List Locale → Bool
has_locale spec rows = any (λ (l : Locale). text_eq l.code spec.code) rows

unfoldable pub has_currency : Currency → CurrencyTables → Bool
has_currency spec t = is_some (get_currency t spec.code)

unfoldable pub has_region : Region → List Region → Bool
has_region spec rows = is_some (get_region rows spec.code)

-- `session.add`
abbrev pub add_row : {A : Type 0} → A → List A → List A
add_row row rows = rows ++ row ∷ []

unfoldable pub seed_locales : List Locale → SeedReport → List Locale × SeedReport
seed_locales = seed_missing has_locale add_row (λ l. locale_label l.code) locales

unfoldable pub seed_currencies : CurrencyTables → SeedReport → CurrencyTables × SeedReport
seed_currencies = seed_missing has_currency upsert_currency (λ c. currency_label c.code) currencies

unfoldable pub seed_regions : List Region → SeedReport → List Region × SeedReport
seed_regions = seed_missing has_region add_row (λ r. region_label r.code r.currency_code) regions

-- The assignment to the row that the query found.
unfoldable pub reset_hash : Text → Text → List AdminUser → List AdminUser
reset_hash email password_hash [] = []
reset_hash email password_hash (u ∷ us) =
    let rest = reset_hash email password_hash us in
    if text_eq u.email email then record u { password_hash = password_hash } ∷ us else u ∷ rest

-- `seed_admin`; `password_hash` is what `hash_password` makes of the password of the settings
unfoldable pub seed_admin :
    Text → Text → Bool → List AdminUser → SeedReport → List AdminUser × SeedReport
seed_admin email password_hash reset_password admins report = elim (find_admin email admins) [
  | none ↦ (
    add_row
        (record {
          email = email;
          password_hash = password_hash;
          role = text "owner";
          is_active = true;
        })
        admins,
    add_created (admin_label email) report,
  )
  | some user ↦
      if reset_password
      then (reset_hash email password_hash admins, add_created (password_reset_label email) report)
      else (admins, add_skipped (admin_label email) report)
]

-- `tracked`
unfoldable pub tracked : Text → List Text
tracked base = select (λ c. not (text_eq c base)) (map (λ (c : Currency). c.code) currencies)

-- The loop over the fallback rates, with the count of the rates written so far.
unfoldable pub fallback_loop :
    Bool → Text → ℕ → List (Text × Decimal) → ℕ → CurrencyTables → ℕ × CurrencyTables
fallback_loop refresh base now [] written t = (written, t)
fallback_loop refresh base now ((quote, rate) ∷ rest) written t =
    let skip =
      not (text_mem quote (tracked base)) || (is_some (get_rate t base quote) && not refresh) in
    fallback_loop refresh base now rest (if skip then written else written + 1)
      (if skip then t else upsert_rate base quote rate (text "seed-fallback") now t)

-- The end of `seed_exchange_rates`, without live rates.
unfoldable pub use_fallback :
    Bool → Text → ℕ → CurrencyTables → SeedReport → CurrencyTables × SeedReport
use_fallback refresh base now t report =
    let (written, t') = fallback_loop refresh base now fallback_rates 0 t in
    (
      t',
      if written == 0
          then add_skipped rates_label report
          else add_created (fallback_rates_label written) report,
    )

-- Is it the exception that `except ExchangeRateUnavailableError` catches?
abbrev pub is_unavailable : Exception → Bool
is_unavailable (domain exchange_rate_unavailable code status) = true
is_unavailable _ = false

-- `seed_exchange_rates`, which raises what it does not catch
unfoldable pub seed_exchange_rates :
    Bool
    → Text
    → ℕ
    → HttpAnswer
    → CurrencyTables
    → SeedReport
    → Result (CurrencyTables × SeedReport)
seed_exchange_rates false base now answer t report = ok (use_fallback false base now t report)
seed_exchange_rates true base now answer t report =
    let (outcome, t') = refresh_rates base (text "open-exchange-rate") now (fetch answer) t in
    elim outcome [
      | ok updated ↦ ok (t', add_created (live_rates_label updated) report)
      | err e ↦
          if is_unavailable e
          then ok (use_fallback true base now t' (add_note provider_unavailable report))
          else err e
    ]

-- The tables that the seeding of the reference data writes.
pub record Reference : Type 0 where
  pub locales : List Locale
  pub currencies : CurrencyTables
  pub regions : List Region
  pub admins : List AdminUser

-- What a run of the script is given: its flags, and the settings and packages' answers it reads.
pub record SeedRun : Type 0 where
  pub refresh_rates : Bool
  pub reset_admin_password : Bool
  pub base_currency : Text
  pub admin_email : Text
  pub password_hash : Text
  pub answer : HttpAnswer
  pub now : ℕ

-- `run_seed` up to the exchange rates; where it raises nothing is committed
unfoldable pub seed_reference : SeedRun → Reference → SeedReport → Result (Reference × SeedReport)
seed_reference run s report = do
  let (locale_rows, report1) = seed_locales s.locales report
  let (currency_rows, report2) = seed_currencies s.currencies report1
  let (region_rows, report3) = seed_regions s.regions report2
  let (admin_rows, report4) =
      seed_admin run.admin_email run.password_hash run.reset_admin_password s.admins report3
  rated ←
      seed_exchange_rates run.refresh_rates run.base_currency run.now run.answer currency_rows
        report4
  ok (
    record {
      locales = locale_rows;
      currencies = rated.0;
      regions = region_rows;
      admins = admin_rows;
    },
    rated.1,
  )
