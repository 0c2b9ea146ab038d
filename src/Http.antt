-- ===== src/Http.antt =====
-- backend/app/core/deps.py and the frame of backend/app/api/v1: what a request brings, the database
-- that its handler works on, and what is left of it when the session commits or is closed.
pub mod Schemas
pub mod Sessions
pub mod Books
pub mod Storefront
pub mod Dashboard
pub mod Products
pub mod Effects
pub mod Routes
use neo_store.Catalog.Models.{Product, Category, Media}
use neo_store.Errors.{request_invalid}
use neo_store.Locale.{resolve_locale, resolve_from_accept_language, Locale}
use neo_store.Catalog.NewProduct.{NewIds}
use neo_store.Currency.{CurrencyTables, HttpAnswer}
use neo_store.Region.{Region, resolve_region}
use neo_store.Catalog.Store.{Store}
use neo_store.Catalog.Storefront.{Views}
use neo_store.Prelude.Text.{Text, text}
use neo_store.Security.{Packages, AdminUser, TokenSettings, get_admin_user}
use neo_store.Cart.{Shelf}
use neo_store.Exec.{Exec, transaction, raise_if, ◌>>=◌}
use neo_store.Result.{Result}
use neo_store.Order.Shop.{Env, Shop, Draws}
use neo_store.Prelude.{ℕ, Bool, Option, some, List, if◌then◌else◌, not, none, is_empty}

-- `Settings` of backend/app/core/config.py, as far as the handlers read it.
pub record Settings : Type 0 where
  pub default_locale : Text
  pub default_currency : Text
  pub region_cookie_name : Text
  pub cart_token_cookie : Text
  pub enable_mock_payments : Bool
  pub tokens : TokenSettings

-- The tables, and the gateway's intents, which stand in the shop.
pub record Database : Type 0 where
  pub shop : Shop
  pub currencies : CurrencyTables
  pub products : List Product
  pub memberships : List (ℕ × ℕ)
  pub categories : List Category
  pub media : List Media
  pub regions : List Region
  pub locales : List Locale
  pub admins : List AdminUser

-- One request: the settings, the packages that it is served with, its time in seconds, its headers,
-- cookies and query, and what the server draws at random, gets as new ids or is answered by the
-- rate provider while it serves it. `lazy_load` is what SQLAlchemy makes of reading an expired
-- attribute outside of an await, given the value in the database; by its asyncio extension's
-- documentation it raises `MissingGreenlet`.
pub record Call : Type 0 where
  pub settings : Settings
  pub packages : Packages
  pub parse_uuid : Text → Option ℕ
  pub uuid_text : ℕ → Text
  pub now : ℕ
  pub headers : Text → Option Text
  pub cookies : Text → Option Text
  pub query : Text → Option Text
  pub draws : Draws
  pub cart_id : ℕ
  pub cart_token : Text
  pub line_id : ℕ
  pub new_ids : NewIds
  pub category_id : ℕ
  pub rates : HttpAnswer
  pub lazy_load : ℕ → Result ℕ

abbrev pub shelf_of : Call → Database → Shelf
shelf_of call d = record {
  currencies = d.currencies;
  products = d.products;
  regions = d.regions;
  now = call.now;
}

abbrev pub env_of : Call → Database → Env
env_of call d = record {
  shelf = shelf_of call d;
  locales = d.locales;
  configured_locale = call.settings.default_locale;
  parse_uuid = call.parse_uuid;
}

abbrev pub views_of : Call → Database → Views
views_of call d = record {
  catalog = record { products = d.products; memberships = d.memberships; media = d.media };
  currencies = d.currencies;
  locales = d.locales;
  stock = d.shop.stock;
  configured_locale = call.settings.default_locale;
  configured_currency = call.settings.default_currency;
}

abbrev pub store_of : Database → Store
store_of d = record {
  products = d.products;
  memberships = d.memberships;
  categories = d.categories;
  media = d.media;
  stock = d.shop.stock;
  carts = d.shop.carts;
}

abbrev pub with_store : Store → Database → Database
with_store t d = record d {
  shop = record d.shop { stock = t.stock; carts = t.carts };
  products = t.products;
  memberships = t.memberships;
  categories = t.categories;
  media = t.media;
}

module _ {A : Type 0} where
  -- The services work on their part of the database.
  abbrev pub on_shop : (Database → Exec Shop A) → Exec Database A
  on_shop m d = let (r, t) = m d d.shop in (r, record d { shop = t })

  abbrev pub on_store : Exec Store A → Exec Database A
  on_store m d = let (r, t) = m (store_of d) in (r, with_store t d)

  abbrev pub on_currencies : Exec CurrencyTables A → Exec Database A
  on_currencies m d = let (r, t) = m d.currencies in (r, record d { currencies = t })

  abbrev pub reads : (Database → Result A) → Exec Database A
  reads f d = (f d, d)

-- The tables as they were, with the intents as they are.
abbrev pub rolled_back : Database → Database → Database
rolled_back d e = record d { shop = record d.shop { intents = e.shop.intents } }

-- A handler that ends in `session.commit()`, and one that leaves it out, whose session is rolled
-- back when it is closed.
unfoldable pub committed : {A : Type 0} → Exec Database A → Exec Database A
committed m d = transaction rolled_back m d

unfoldable pub uncommitted : {A : Type 0} → Exec Database A → Exec Database A
uncommitted m d = let (r, e) = m d in (r, rolled_back d e)

-- `a or b`, where an absent text and the empty one are false
abbrev pub or_text : Option Text → Option Text → Option Text
or_text none b = b
or_text (some a) b = if is_empty a then b else some a

unfoldable pub get_locale : Call → Database → Text
get_locale call d = elim (or_text (call.query (text "locale")) none) [
  | some locale ↦ resolve_locale call.settings.default_locale d.locales (some locale)
  | none ↦
      resolve_from_accept_language call.settings.default_locale d.locales
        (call.headers (text "accept-language"))
]

unfoldable pub get_region : Call → Database → Result Region
get_region call d = resolve_region d.regions (
    or_text (call.query (text "region"))
      (or_text (call.headers (text "x-region")) (call.cookies call.settings.region_cookie_name)))

unfoldable pub get_cart_token : Call → Option Text
get_cart_token call =
    or_text (call.query (text "cart")) (call.cookies call.settings.cart_token_cookie)

-- `AdminDep`
unfoldable pub require_admin : Call → Exec Database AdminUser
require_admin call d = (
  get_admin_user call.packages call.settings.tokens call.now d.admins
      (call.headers (text "authorization")),
  d,
)

-- A handler with `AdminDep` that commits at its end, and one that does not.
unfoldable pub admin_write : {A : Type 0} → Call → (AdminUser → Exec Database A) → Exec Database A
admin_write call run = committed (require_admin call >>= run)

unfoldable pub admin_read : {A : Type 0} → Call → (AdminUser → Exec Database A) → Exec Database A
admin_read call run = uncommitted (require_admin call >>= run)

-- A constraint of a schema or a query parameter; where it fails, the handler does not run.
abbrev pub validate : Bool → Exec Database (Unit {0})
validate valid = raise_if (not valid) request_invalid
