-- ===== src/Http/Routes/Atomic.antt =====
-- A request that is refused, and one that only reads, leave the tables alone, but for the two that
-- may raise after their commit.
use neo_store.Prelude.Text.{text}
use neo_store.Security.{get_admin_user}
use neo_store.Http.Schemas.{ExchangeRateOverride}
use neo_store.Currency.{get_rate}
use neo_store.Catalog.AdminViews.{to_admin_read}
use neo_store.Http.Products.{
  browse_catalog, inspect_product, browse_categories, post_product, remove_product, patch_product,
  put_variant_price, post_category, update_category,
}
use neo_store.Result.{Result-cases, err}
use neo_store.Errors.{Exception}
use neo_store.Http.Sessions.{
  IsAtomic, uncommitted-IsAtomic, SameTables, uncommitted_same, committed-IsAtomic,
  then_read-IsAtomic, admin_read-IsAtomic, admin_read_same, admin_write-IsAtomic,
}
use neo_store.Http.Dashboard.{
  post_login, show_me, browse_orders, inspect_order, get_transitions, get_inventory, update_status,
  adjust_inventory, settings_locales, list_currencies, settings_regions, list_exchange_rates,
  refresh_exchange_rates, override_exchange_rate, write_rate, validate_rate,
}
use neo_store.Http.Storefront.{
  list_regions, list_locales, browse_products, show_product_page, create_cart, get_cart,
  cart_totals, post_line, show_order, patch_line, delete_line, post_checkout, pay_order,
}
use neo_store.Exec.{Exec, transaction}
use neo_store.Http.{Call, Database, store_of, admin_write, committed, require_admin}
use neo_store.Http.Routes.{
  AdminRoute, Body, Route, StoreRoute, serve, serve_admin, serve_store, store, get_admin_orders,
  get_products, login_form, admin, answer, get_admin_order, get_product_page, token_body,
  get_order_transitions, post_cart, put_price, get_cart_page, patch_order_status, get_cart_totals,
  get_stock, post_cart_line, post_stock_adjustment, get_rates, patch_cart_line, delete_cart_line,
  post_rates_refresh, post_order, put_rate, get_admin_products, get_order_page, regions_body,
  locales_body, post_admin_product, post_payment, get_admin_product, get_regions, products_body,
  delete_admin_product, get_locales, product_body, cart_body, patch_admin_product,
  post_admin_category, patch_admin_category, profile_body, totals_body, get_me, order_body,
  orders_body, get_settings_locales, texts_body, get_settings_currencies, stock_body,
  currencies_body, get_settings_regions, get_categories, rates_body, refresh_body,
  admin_products_body, admin_product_body, no_body, categories_body, category_body,
}
use neo_store.Prelude.{Bool, true, ◌≡◌, false, ◌⊎◌, inl, arith, inr, is_some}

-- The routes of the method GET.
unfoldable pub is_get_store : StoreRoute → Bool
is_get_store get_regions = true
is_get_store get_locales = true
is_get_store (get_products category limit offset) = true
is_get_store (get_product_page slug) = true
is_get_store (post_cart region) = false
is_get_store (get_cart_page token) = true
is_get_store (get_cart_totals token) = true
is_get_store (post_cart_line token variant_id quantity) = false
is_get_store (patch_cart_line token line_id quantity) = false
is_get_store (delete_cart_line token line_id) = false
is_get_store (post_order payload) = false
is_get_store (get_order_page number) = true
is_get_store (post_payment number) = false

unfoldable pub is_get_admin : AdminRoute → Bool
is_get_admin get_me = true
is_get_admin (get_admin_orders status limit offset) = true
is_get_admin (get_admin_order ref) = true
is_get_admin (get_order_transitions ref) = true
is_get_admin (patch_order_status ref payload) = false
is_get_admin (get_stock variant_id) = true
is_get_admin (post_stock_adjustment variant_id payload) = false
is_get_admin get_settings_locales = true
is_get_admin get_settings_currencies = true
is_get_admin get_settings_regions = true
is_get_admin (get_rates base) = true
is_get_admin (post_rates_refresh base) = false
is_get_admin (put_rate payload) = false
is_get_admin (get_admin_products limit offset) = true
is_get_admin (post_admin_product payload) = false
is_get_admin (get_admin_product product_id) = true
is_get_admin (delete_admin_product product_id) = false
is_get_admin (patch_admin_product product_id payload) = false
is_get_admin (put_price product_id variant_id currency_code amount) = false
is_get_admin get_categories = true
is_get_admin (post_admin_category translations parent_id) = false
is_get_admin (patch_admin_category category_id translations) = false

unfoldable pub is_get : Route → Bool
unfolding is_get_store is_get_admin
is_get (store route) = is_get_store route
is_get (login_form email password) = false
is_get (admin route) = is_get_admin route

-- The routes that read for their answer after the commit what may raise then: the price of a variant,
-- whose product is looked up then, and the rate of a pair.
unfoldable pub answers_late : Route → Bool
answers_late (store route) = false
answers_late (login_form email password) = false
answers_late (admin (put_price product_id variant_id currency_code amount)) = true
answers_late (admin (put_rate payload)) = true
answers_late (admin route) = false

-- The requests whose answer may be an error after the commit: a price, and the rate of a pair that is
-- stored.
unfoldable pub may_fail_late : Route → Database → Bool
unfolding answers_late
may_fail_late (admin (put_rate payload)) d =
    is_some (get_rate d.currencies payload.base_code payload.quote_code)
may_fail_late route d = answers_late route

answer-IsAtomic :
    {A : Type 0} (body : A → Body) (m : Exec Database A) → IsAtomic m → IsAtomic (answer body m)
answer-IsAtomic body m atomic d x h = elim (Result-cases (m d).0) [
  | inl (a, e) ↦ absurd (ground arith)
  | inr (y, e) ↦ atomic d y e
]

store_error : (call : Call) (route : StoreRoute) → IsAtomic (serve_store call route)
unfolding serve_store list_regions list_locales browse_products show_product_page create_cart
    get_cart cart_totals post_line patch_line delete_line post_checkout show_order pay_order
store_error call get_regions = answer-IsAtomic regions_body _ (uncommitted-IsAtomic _)
store_error call get_locales = answer-IsAtomic locales_body _ (uncommitted-IsAtomic _)
store_error call (get_products category limit offset) =
    answer-IsAtomic products_body _ (uncommitted-IsAtomic _)
store_error call (get_product_page slug) = answer-IsAtomic product_body _ (uncommitted-IsAtomic _)
store_error call (post_cart region) = answer-IsAtomic cart_body _ (committed-IsAtomic _)
store_error call (get_cart_page token) = answer-IsAtomic cart_body _ (uncommitted-IsAtomic _)
store_error call (get_cart_totals token) = answer-IsAtomic totals_body _ (uncommitted-IsAtomic _)
store_error call (post_cart_line token variant_id quantity) =
    answer-IsAtomic cart_body _ (committed-IsAtomic _)
store_error call (patch_cart_line token line_id quantity) =
    answer-IsAtomic cart_body _ (committed-IsAtomic _)
store_error call (delete_cart_line token line_id) =
    answer-IsAtomic cart_body _ (committed-IsAtomic _)
store_error call (post_order payload) = answer-IsAtomic order_body _ (committed-IsAtomic _)
store_error call (get_order_page number) = answer-IsAtomic order_body _ (uncommitted-IsAtomic _)
store_error call (post_payment number) = answer-IsAtomic order_body _ (committed-IsAtomic _)

admin_error :
    (call : Call) (route : AdminRoute)
    → answers_late (admin route) ≡ false
    → IsAtomic (serve_admin call route)
unfolding serve_admin answers_late show_me browse_orders inspect_order get_transitions update_status
    get_inventory adjust_inventory settings_locales list_currencies settings_regions
    list_exchange_rates refresh_exchange_rates override_exchange_rate browse_catalog post_product
    inspect_product remove_product patch_product put_variant_price browse_categories post_category
    update_category
admin_error call get_me o = answer-IsAtomic profile_body _ (admin_read-IsAtomic call _)
admin_error call (get_admin_orders status limit offset) o =
    answer-IsAtomic orders_body _ (admin_read-IsAtomic call _)
admin_error call (get_admin_order ref) o = answer-IsAtomic order_body _ (admin_read-IsAtomic call _)
admin_error call (get_order_transitions ref) o =
    answer-IsAtomic texts_body _ (admin_read-IsAtomic call _)
admin_error call (patch_order_status ref payload) o =
    answer-IsAtomic order_body _ (admin_write-IsAtomic call _)
admin_error call (get_stock variant_id) o =
    answer-IsAtomic stock_body _ (admin_read-IsAtomic call _)
admin_error call (post_stock_adjustment variant_id payload) o =
    answer-IsAtomic stock_body _ (admin_write-IsAtomic call _)
admin_error call get_settings_locales o =
    answer-IsAtomic locales_body _ (admin_read-IsAtomic call _)
admin_error call get_settings_currencies o =
    answer-IsAtomic currencies_body _ (admin_read-IsAtomic call _)
admin_error call get_settings_regions o =
    answer-IsAtomic regions_body _ (admin_read-IsAtomic call _)
admin_error call (get_rates base) o = answer-IsAtomic rates_body _ (admin_read-IsAtomic call _)
admin_error call (post_rates_refresh base) o =
    answer-IsAtomic refresh_body _ (admin_write-IsAtomic call _)
admin_error call (put_rate payload) o = absurd cc
admin_error call (get_admin_products limit offset) o =
    answer-IsAtomic admin_products_body _ (admin_read-IsAtomic call _)
admin_error call (post_admin_product payload) o =
    answer-IsAtomic admin_product_body _
      (then_read-IsAtomic _ (λ p e. to_admin_read p (store_of e)) (admin_write-IsAtomic call _))
admin_error call (get_admin_product product_id) o =
    answer-IsAtomic admin_product_body _ (admin_read-IsAtomic call _)
admin_error call (delete_admin_product product_id) o =
    answer-IsAtomic no_body _ (admin_write-IsAtomic call _)
admin_error call (patch_admin_product product_id payload) o =
    answer-IsAtomic admin_product_body _
      (then_read-IsAtomic _ (λ p e. to_admin_read p (store_of e)) (admin_write-IsAtomic call _))
admin_error call (put_price product_id variant_id currency_code amount) o = absurd cc
admin_error call get_categories o = answer-IsAtomic categories_body _ (admin_read-IsAtomic call _)
admin_error call (post_admin_category translations parent_id) o =
    answer-IsAtomic category_body _ (admin_write-IsAtomic call _)
admin_error call (patch_admin_category category_id translations) o =
    answer-IsAtomic category_body _ (admin_write-IsAtomic call _)

pub store_get :
    (call : Call) (route : StoreRoute) (d : Database)
    → is_get_store route ≡ true
    → SameTables d (serve_store call route d).1
unfolding serve_store is_get_store list_regions list_locales browse_products show_product_page
    get_cart cart_totals show_order
store_get call get_regions d g = uncommitted_same _ d
store_get call get_locales d g = uncommitted_same _ d
store_get call (get_products category limit offset) d g = uncommitted_same _ d
store_get call (get_product_page slug) d g = uncommitted_same _ d
store_get call (post_cart region) d g = absurd cc
store_get call (get_cart_page token) d g = uncommitted_same _ d
store_get call (get_cart_totals token) d g = uncommitted_same _ d
store_get call (post_cart_line token variant_id quantity) d g = absurd cc
store_get call (patch_cart_line token line_id quantity) d g = absurd cc
store_get call (delete_cart_line token line_id) d g = absurd cc
store_get call (post_order payload) d g = absurd cc
store_get call (get_order_page number) d g = uncommitted_same _ d
store_get call (post_payment number) d g = absurd cc

pub admin_get :
    (call : Call) (route : AdminRoute) (d : Database)
    → is_get_admin route ≡ true
    → SameTables d (serve_admin call route d).1
unfolding serve_admin is_get_admin show_me browse_orders inspect_order get_transitions get_inventory
    settings_locales list_currencies settings_regions list_exchange_rates browse_catalog
    inspect_product browse_categories
admin_get call get_me d g = admin_read_same call _ d
admin_get call (get_admin_orders status limit offset) d g = admin_read_same call _ d
admin_get call (get_admin_order ref) d g = admin_read_same call _ d
admin_get call (get_order_transitions ref) d g = admin_read_same call _ d
admin_get call (patch_order_status ref payload) d g = absurd cc
admin_get call (get_stock variant_id) d g = admin_read_same call _ d
admin_get call (post_stock_adjustment variant_id payload) d g = absurd cc
admin_get call get_settings_locales d g = admin_read_same call _ d
admin_get call get_settings_currencies d g = admin_read_same call _ d
admin_get call get_settings_regions d g = admin_read_same call _ d
admin_get call (get_rates base) d g = admin_read_same call _ d
admin_get call (post_rates_refresh base) d g = absurd cc
admin_get call (put_rate payload) d g = absurd cc
admin_get call (get_admin_products limit offset) d g = admin_read_same call _ d
admin_get call (post_admin_product payload) d g = absurd cc
admin_get call (get_admin_product product_id) d g = admin_read_same call _ d
admin_get call (delete_admin_product product_id) d g = absurd cc
admin_get call (patch_admin_product product_id payload) d g = absurd cc
admin_get call (put_price product_id variant_id currency_code amount) d g = absurd cc
admin_get call get_categories d g = admin_read_same call _ d
admin_get call (post_admin_category translations parent_id) d g = absurd cc
admin_get call (patch_admin_category category_id translations) d g = absurd cc

error_same :
    (call : Call) (route : Route) → answers_late route ≡ false → IsAtomic (serve call route)
unfolding serve answers_late post_login
error_same call (store route) o = store_error call route
error_same call (login_form email password) o =
    answer-IsAtomic token_body _ (uncommitted-IsAtomic _)
error_same call (admin route) o = admin_error call route o

-- The rate of a pair that is not stored is written and read back, or the request is refused.
put_rate_same :
    (call : Call) (payload : ExchangeRateOverride) (d : Database) (x : Exception)
    → is_some (get_rate d.currencies payload.base_code payload.quote_code) ≡ false
    → (serve_admin call (put_rate payload) d).0 ≡ err x
    → SameTables d (serve_admin call (put_rate payload) d).1
unfolding serve_admin override_exchange_rate admin_write committed transaction require_admin
    write_rate validate_rate
put_rate_same call payload d x new h =
    elim (Result-cases (
      get_admin_user call.packages call.settings.tokens call.now d.admins
        (call.headers (text "authorization")))) [
          | inl (user, e) ↦ absurd (ground arith)
          | inr (y, e) ↦ ground arith
        ]

late_same :
    (call : Call) (route : AdminRoute) (d : Database) (x : Exception)
    → may_fail_late (admin route) d ≡ false
    → (serve_admin call route d).0 ≡ err x
    → SameTables d (serve_admin call route d).1
unfolding may_fail_late
late_same call (put_rate payload) d x o h = put_rate_same call payload d x o h
late_same call route d x o h = admin_error call route o d x h

-- A request leaves every table as it was where its method is GET, and where it is answered with an
-- error, unless it writes the price of a variant, or the rate of a pair that is stored.
pub serve_same :
    (call : Call) (route : Route) (d : Database)
    → (is_get route ≡ true)
      ⊎ ((x : Exception) × (may_fail_late route d ≡ false) × ((serve call route d).0 ≡ err x))
    → SameTables d (serve call route d).1
unfolding serve is_get may_fail_late
serve_same call (store route) d (inr (x, o, h)) = error_same call (store route) o d x h
serve_same call (login_form email password) d (inr (x, o, h)) =
    error_same call (login_form email password) o d x h
serve_same call (admin route) d (inr (x, o, h)) = late_same call route d x o h
serve_same call (store route) d (inl g) = store_get call route d g
serve_same call (login_form email password) d (inl g) = absurd cc
serve_same call (admin route) d (inl g) = admin_get call route d g
