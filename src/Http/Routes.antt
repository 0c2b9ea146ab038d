-- ===== src/Http/Routes.antt =====
-- The endpoints of the API (backend/app/api/v1/router.py), and what the server does with a request:
-- the handler of its route runs, and an exception becomes an error answer (backend/app/core/errors.py).
pub mod Atomic
pub mod Guarded
pub mod Traffic
use neo_store.Http.Products.{
  browse_catalog, post_product, inspect_product, remove_product, patch_product, put_variant_price,
  browse_categories, post_category, update_category,
}
use neo_store.Catalog.AdminViews.{AdminProductListPage, AdminProductRead}
use neo_store.Currency.{Currency}
use neo_store.Catalog.Store.{TranslationFields}
use neo_store.Decimal.{Decimal}
use neo_store.Catalog.Admin.{ProductPatch}
use neo_store.Catalog.NewProduct.{ProductWrite}
use neo_store.Catalog.Storefront.{ProductDetail}
use neo_store.Http.Dashboard.{
  post_login, show_me, browse_orders, inspect_order, get_transitions, update_status, get_inventory,
  adjust_inventory, settings_locales, list_currencies, settings_regions, list_exchange_rates,
  refresh_exchange_rates, override_exchange_rate,
}
use neo_store.Result.{ok}
use neo_store.Http.Storefront.{
  list_regions, ProductPage, list_locales, browse_products, show_product_page, create_cart,
  get_cart, cart_totals, post_line, patch_line, delete_line, post_checkout, show_order, pay_order,
}
use neo_store.Http.Schemas.{
  CheckoutRequest, LocaleRead, OrderStatusUpdate, InventoryAdjustment, ExchangeRateOverride,
  CartRead, CartTotalsRead, OrderRead, OrderListPage, AdminProfile, TokenResponse, InventoryRead,
  ExchangeRateRead, RefreshResult, CategoryRead,
}
use neo_store.Prelude.Int.{ℤ}
use neo_store.Region.{RegionDetail}
use neo_store.Prelude.Text.{Text}
use neo_store.Exec.{Exec}
use neo_store.Http.{Call, Database}
use neo_store.Prelude.{ℕ, All, List, Option, some}
use neo_store.Result

-- The routes under `/store`, with their path, query and body parameters.
pub data StoreRoute : Type 0 where
  get_regions get_locales : StoreRoute
  get_products : Option ℕ → ℤ → ℤ → StoreRoute
  get_product_page : Text → StoreRoute
  post_cart : Option Text → StoreRoute
  get_cart_page get_cart_totals : Text → StoreRoute
  post_cart_line patch_cart_line : Text → ℕ → ℤ → StoreRoute
  delete_cart_line : Text → ℕ → StoreRoute
  post_order : CheckoutRequest → StoreRoute
  get_order_page post_payment : Text → StoreRoute

-- The routes under `/admin` other than the login.
pub data AdminRoute : Type 0 where
  get_me : AdminRoute
  get_admin_orders : Option Text → ℤ → ℤ → AdminRoute
  get_admin_order get_order_transitions : Text → AdminRoute
  patch_order_status : Text → OrderStatusUpdate → AdminRoute
  get_stock : ℕ → AdminRoute
  post_stock_adjustment : ℕ → InventoryAdjustment → AdminRoute
  get_settings_locales get_settings_currencies get_settings_regions : AdminRoute
  get_rates post_rates_refresh : Text → AdminRoute
  put_rate : ExchangeRateOverride → AdminRoute
  get_admin_products : ℤ → ℤ → AdminRoute
  post_admin_product : ProductWrite → AdminRoute
  get_admin_product delete_admin_product : ℕ → AdminRoute
  patch_admin_product : ℕ → ProductPatch → AdminRoute
  put_price : ℕ → ℕ → Text → Decimal → AdminRoute
  get_categories : AdminRoute
  post_admin_category : List (Text × TranslationFields) → Option ℕ → AdminRoute
  patch_admin_category : ℕ → Option (List (Text × TranslationFields)) → AdminRoute

pub data Route : Type 0 where
  store : StoreRoute → Route
  login_form : Text → Text → Route
  admin : AdminRoute → Route

-- What a handler returns, by its schema.
pub data Body : Type 0 where
  regions_body : List RegionDetail → Body
  locales_body : List LocaleRead → Body
  products_body : ProductPage → Body
  product_body : ProductDetail × Text → Body
  cart_body : CartRead → Body
  totals_body : CartTotalsRead → Body
  order_body : OrderRead → Body
  orders_body : OrderListPage → Body
  profile_body : AdminProfile → Body
  token_body : TokenResponse → Body
  texts_body : List Text → Body
  stock_body : InventoryRead → Body
  currencies_body : List Currency → Body
  rates_body : List ExchangeRateRead → Body
  rate_body : ExchangeRateRead → Body
  refresh_body : RefreshResult → Body
  admin_products_body : AdminProductListPage → Body
  admin_product_body : AdminProductRead → Body
  category_body : CategoryRead → Body
  categories_body : List CategoryRead → Body
  no_body : Unit {0} → Body

-- A handler's result as the body of its answer.
abbrev pub answer : {A : Type 0} → (A → Body) → Exec Database A → Exec Database Body
answer body m d = let (r, e) = m d in (Result.◌>>=◌ r (λ a. ok (body a)), e)

module _ (call : Call) where
  unfoldable pub serve_store : StoreRoute → Exec Database Body
  serve_store get_regions = answer regions_body (list_regions call)
  serve_store get_locales = answer locales_body (list_locales call)
  serve_store (get_products category limit offset) =
      answer products_body (browse_products call category limit offset)
  serve_store (get_product_page slug) = answer product_body (show_product_page call slug)
  serve_store (post_cart region) = answer cart_body (create_cart call region)
  serve_store (get_cart_page token) = answer cart_body (get_cart call token)
  serve_store (get_cart_totals token) = answer totals_body (cart_totals call token)
  serve_store (post_cart_line token variant_id quantity) =
      answer cart_body (post_line call token variant_id quantity)
  serve_store (patch_cart_line token line_id quantity) =
      answer cart_body (patch_line call token line_id quantity)
  serve_store (delete_cart_line token line_id) = answer cart_body (delete_line call token line_id)
  serve_store (post_order payload) = answer order_body (post_checkout call payload)
  serve_store (get_order_page number) = answer order_body (show_order call number)
  serve_store (post_payment number) = answer order_body (pay_order call number)

  unfoldable pub serve_admin : AdminRoute → Exec Database Body
  serve_admin get_me = answer profile_body (show_me call)
  serve_admin (get_admin_orders status limit offset) =
      answer orders_body (browse_orders call status limit offset)
  serve_admin (get_admin_order ref) = answer order_body (inspect_order call ref)
  serve_admin (get_order_transitions ref) = answer texts_body (get_transitions call ref)
  serve_admin (patch_order_status ref payload) = answer order_body (update_status call ref payload)
  serve_admin (get_stock variant_id) = answer stock_body (get_inventory call variant_id)
  serve_admin (post_stock_adjustment variant_id payload) =
      answer stock_body (adjust_inventory call variant_id payload)
  serve_admin get_settings_locales = answer locales_body (settings_locales call)
  serve_admin get_settings_currencies = answer currencies_body (list_currencies call)
  serve_admin get_settings_regions = answer regions_body (settings_regions call)
  serve_admin (get_rates base) = answer rates_body (list_exchange_rates call base)
  serve_admin (post_rates_refresh base) = answer refresh_body (refresh_exchange_rates call base)
  serve_admin (put_rate payload) = answer rate_body (override_exchange_rate call payload)
  serve_admin (get_admin_products limit offset) =
      answer admin_products_body (browse_catalog call limit offset)
  serve_admin (post_admin_product payload) = answer admin_product_body (post_product call payload)
  serve_admin (get_admin_product product_id) =
      answer admin_product_body (inspect_product call product_id)
  serve_admin (delete_admin_product product_id) = answer no_body (remove_product call product_id)
  serve_admin (patch_admin_product product_id payload) =
      answer admin_product_body (patch_product call product_id payload)
  serve_admin (put_price product_id variant_id currency_code amount) =
      answer admin_product_body (put_variant_price call product_id variant_id currency_code amount)
  serve_admin get_categories = answer categories_body (browse_categories call)
  serve_admin (post_admin_category translations parent_id) =
      answer category_body (post_category call translations parent_id)
  serve_admin (patch_admin_category category_id translations) =
      answer category_body (update_category call category_id translations)

  unfoldable pub serve : Route → Exec Database Body
  serve (store route) = serve_store route
  serve (login_form email password) = answer token_body (post_login call email password)
  serve (admin route) = serve_admin route
