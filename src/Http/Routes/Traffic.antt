-- ===== src/Http/Routes/Traffic.antt =====
-- The books of the shop under any traffic of requests, to all routes of the API.
use neo_store.Prelude.Int.{pos}
use neo_store.Order.Units.{reserved_units}
use neo_store.Catalog.Admin.{owned}
use neo_store.Catalog.Reads.{product_key}
use neo_store.Catalog.Models.{Product}
use neo_store.Catalog.NewProduct.{variants_or_default}
use neo_store.Catalog.Stocked.{IsStockable}
use neo_store.Order.Trade.{step-IsBalanced}
use neo_store.Http.Books.{SameTables-Untouched, Untouched-IsBalanced}
use neo_store.Http.Routes.Atomic.{admin_get, store_get, is_get_admin, is_get_store}
use neo_store.Http.Effects.{
  Effect, create_cart-Untouched, update_status-Effect, adjust_inventory-Effect, post_line-Untouched,
  patch_line-Untouched, delete_line-Untouched, post_checkout_step, pay_order-Effect,
}
use neo_store.Http.Effects.Dashboard.{
  refresh-Untouched, override-Untouched, post_product-Untouched, remove_product-Untouched,
  patch_product-Untouched, put_variant_price-Untouched, post_category-Untouched,
  update_category-Untouched,
}
use neo_store.Http.Dashboard.{post_login}
use neo_store.Order.Shop.{Shop, order_key}
use neo_store.Http.Sessions.{SameTables, uncommitted_same}
use neo_store.Order.Accounts.{IsBalanced}
use neo_store.Http.Routes.{
  serve, serve_admin, serve_store, AdminRoute, Route, StoreRoute, admin, store, login_form,
  post_order, get_admin_orders, get_products, get_admin_order, get_product_page, post_admin_product,
  get_order_transitions, post_cart, patch_order_status, delete_admin_product, get_cart_page,
  get_cart_totals, get_stock, post_cart_line, post_stock_adjustment, get_rates, patch_cart_line,
  post_rates_refresh, delete_cart_line, put_rate, get_admin_products, get_order_page, post_payment,
  get_admin_product, get_regions, get_locales, patch_admin_product, put_price, post_admin_category,
  patch_admin_category, get_me, get_settings_locales, get_settings_currencies, get_settings_regions,
  get_categories,
}
use neo_store.Http.{Call, Database}
use neo_store.Prelude.{ℕ, All, ◌≡◌, inl, inr, none, some, true, refl}
use neo_store.Prelude.Table

-- What a request must not bring: an id for a new order that is taken, a negative quantity for a new
-- variant, or the deletion of a product whose variants hold reservations.
unfoldable pub IsRegular : Call → Database → Route → Type 0
IsRegular call d (store (post_order payload)) =
    Table.get order_key call.draws.order_id d.shop.orders ≡ none
IsRegular call d (store route) = Unit
IsRegular call d (login_form email password) = Unit
IsRegular call d (admin (post_admin_product payload)) =
    All IsStockable (variants_or_default payload.variants)
IsRegular call d (admin (delete_admin_product id)) =
    (p : Product)
    → Table.get product_key id d.products ≡ some p
    → (v : ℕ) → owned p.variants v ≡ true
    → reserved_units v d.shop.stock ≡ pos 0
IsRegular call d (admin route) = Unit

-- A request's effect on the shop keeps its books.
Effect-IsBalanced :
    (call : Call) (d : Database) (t : Shop) → Effect call d t → IsBalanced d.shop → IsBalanced t
Effect-IsBalanced call d t (inl step) b = step-IsBalanced step b
Effect-IsBalanced call d t (inr u) b = Untouched-IsBalanced d.shop t u b

get-Effect : (call : Call) (d e : Database) → SameTables d e → Effect call d e.shop
get-Effect call d e same = inr (SameTables-Untouched d e same)

store-Effect :
    (call : Call) (route : StoreRoute) (d : Database)
    → IsRegular call d (store route)
    → Effect call d (serve_store call route d).1.shop
unfolding serve_store IsRegular
store-Effect call get_regions d h =
    get-Effect call d _ (store_get call get_regions d (unfold is_get_store in refl))
store-Effect call get_locales d h =
    get-Effect call d _ (store_get call get_locales d (unfold is_get_store in refl))
store-Effect call (get_products category limit offset) d h =
    get-Effect call d _
      (store_get call (get_products category limit offset) d (unfold is_get_store in refl))
store-Effect call (get_product_page slug) d h =
    get-Effect call d _ (store_get call (get_product_page slug) d (unfold is_get_store in refl))
store-Effect call (post_cart region) d h = inr (create_cart-Untouched call d region)
store-Effect call (get_cart_page token) d h =
    get-Effect call d _ (store_get call (get_cart_page token) d (unfold is_get_store in refl))
store-Effect call (get_cart_totals token) d h =
    get-Effect call d _ (store_get call (get_cart_totals token) d (unfold is_get_store in refl))
store-Effect call (post_cart_line token variant_id quantity) d h =
    inr (post_line-Untouched call d token variant_id quantity)
store-Effect call (patch_cart_line token line_id quantity) d h =
    inr (patch_line-Untouched call d token line_id quantity)
store-Effect call (delete_cart_line token line_id) d h =
    inr (delete_line-Untouched call d token line_id)
store-Effect call (post_order payload) d h = inl (post_checkout_step call d payload h)
store-Effect call (get_order_page number) d h =
    get-Effect call d _ (store_get call (get_order_page number) d (unfold is_get_store in refl))
store-Effect call (post_payment number) d h = pay_order-Effect call d number

admin-Effect :
    (call : Call) (route : AdminRoute) (d : Database)
    → IsRegular call d (admin route)
    → Effect call d (serve_admin call route d).1.shop
unfolding serve_admin IsRegular
admin-Effect call get_me d h =
    get-Effect call d _ (admin_get call get_me d (unfold is_get_admin in refl))
admin-Effect call (get_admin_orders status limit offset) d h =
    get-Effect call d _
      (admin_get call (get_admin_orders status limit offset) d (unfold is_get_admin in refl))
admin-Effect call (get_admin_order ref) d h =
    get-Effect call d _ (admin_get call (get_admin_order ref) d (unfold is_get_admin in refl))
admin-Effect call (get_order_transitions ref) d h =
    get-Effect call d _ (admin_get call (get_order_transitions ref) d (unfold is_get_admin in refl))
admin-Effect call (patch_order_status ref payload) d h = update_status-Effect call d ref payload
admin-Effect call (get_stock variant_id) d h =
    get-Effect call d _ (admin_get call (get_stock variant_id) d (unfold is_get_admin in refl))
admin-Effect call (post_stock_adjustment variant_id payload) d h =
    adjust_inventory-Effect call d variant_id payload
admin-Effect call get_settings_locales d h =
    get-Effect call d _ (admin_get call get_settings_locales d (unfold is_get_admin in refl))
admin-Effect call get_settings_currencies d h =
    get-Effect call d _ (admin_get call get_settings_currencies d (unfold is_get_admin in refl))
admin-Effect call get_settings_regions d h =
    get-Effect call d _ (admin_get call get_settings_regions d (unfold is_get_admin in refl))
admin-Effect call (get_rates base) d h =
    get-Effect call d _ (admin_get call (get_rates base) d (unfold is_get_admin in refl))
admin-Effect call (post_rates_refresh base) d h = inr (refresh-Untouched call d base)
admin-Effect call (put_rate payload) d h = inr (override-Untouched call d payload)
admin-Effect call (get_admin_products limit offset) d h =
    get-Effect call d _
      (admin_get call (get_admin_products limit offset) d (unfold is_get_admin in refl))
admin-Effect call (post_admin_product payload) d h = inr (post_product-Untouched call d payload h)
admin-Effect call (get_admin_product product_id) d h =
    get-Effect call d _
      (admin_get call (get_admin_product product_id) d (unfold is_get_admin in refl))
admin-Effect call (delete_admin_product product_id) d h =
    inr (remove_product-Untouched call d product_id h)
admin-Effect call (patch_admin_product product_id payload) d h =
    inr (patch_product-Untouched call d product_id payload)
admin-Effect call (put_price product_id variant_id currency_code amount) d h =
    inr (put_variant_price-Untouched call d product_id variant_id currency_code amount)
admin-Effect call get_categories d h =
    get-Effect call d _ (admin_get call get_categories d (unfold is_get_admin in refl))
admin-Effect call (post_admin_category translations parent_id) d h =
    inr (post_category-Untouched call d translations parent_id)
admin-Effect call (patch_admin_category category_id translations) d h =
    inr (update_category-Untouched call d category_id translations)

serve-Effect :
    (call : Call) (route : Route) (d : Database)
    → IsRegular call d route
    → Effect call d (serve call route d).1.shop
unfolding serve post_login
serve-Effect call (store route) d h = store-Effect call route d h
serve-Effect call (login_form email password) d h = get-Effect call d _ (uncommitted_same _ d)
serve-Effect call (admin route) d h = admin-Effect call route d h

-- Requests one after the other, each served on the database that the one before has left.
pub data Traffic : Database → Database → Type 0 where
  quiet : {d : Database} → Traffic d d
  then_served :
      (call : Call) (route : Route) {d e f : Database}
      → Traffic d e
      → IsRegular call e route
      → f ≡ (serve call route e).1
      → Traffic d f

-- Whatever requests reach the API, in whatever order, answered or refused, the books of the shop
-- stay balanced: the units reserved of a variant are those in the orders that await payment, and
-- every row has 0 ≤ reserved ≤ quantity; provided that new orders get new ids, new variants are
-- stocked with no negative quantity, and no product is deleted while its variants are reserved.
pub Traffic-IsBalanced : {d e : Database} → Traffic d e → IsBalanced d.shop → IsBalanced e.shop
Traffic-IsBalanced quiet b = b
Traffic-IsBalanced (then_served call route {e = e} before regular served) b =
    let there = Traffic-IsBalanced before b in
    rw served (Effect-IsBalanced call e _ (serve-Effect call route e regular) there)
