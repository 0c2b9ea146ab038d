-- ===== src/Http/Routes/Guarded.antt =====
-- No route of the dashboard but the login runs without the token of an active account.
use neo_store.Security.Tokens.{get_admin_user_outcome, Carries}
use neo_store.Http.Products.{
  browse_catalog, post_product, inspect_product, remove_product, patch_product, put_variant_price,
  browse_categories, post_category, update_category, read_product, find_and_read,
}
use neo_store.Prelude.Text.{text}
use neo_store.Result.{err, ok, Result}
use neo_store.Exec.{Exec, transaction, ◌>>=◌, bind-err, lift}
use neo_store.Security.{AdminUser, get_admin_user}
use neo_store.Http.Dashboard.{
  show_me, browse_orders, inspect_order, get_transitions, update_status, get_inventory,
  adjust_inventory, settings_locales, list_currencies, settings_regions, list_exchange_rates,
  refresh_exchange_rates, override_exchange_rate, validate_rate,
}
use neo_store.Http.{
  Call, committed, require_admin, uncommitted, Database, rolled_back, admin_read, admin_write,
}
use neo_store.Http.Routes.{
  get_settings_regions, get_settings_regions, serve, serve_admin, Body, AdminRoute, answer, admin,
  profile_body, get_admin_orders, orders_body, get_admin_order, order_body, get_order_transitions,
  texts_body, patch_order_status, get_stock, stock_body, post_stock_adjustment, locales_body,
  currencies_body, regions_body, get_rates, rates_body, post_rates_refresh, refresh_body, put_rate,
  rate_body, get_admin_products, admin_products_body, post_admin_product, admin_product_body,
  get_admin_product, delete_admin_product, no_body, patch_admin_product, put_price, categories_body,
  post_admin_category, category_body, patch_admin_category, get_me, get_settings_locales,
  get_settings_currencies, get_settings_regions, get_categories,
}
use neo_store.Errors.{Exception, plain_error, unauthorized}
use neo_store.Prelude.{◌≡◌, ap, refl, ◌∙◌, ◌⊎◌, inl, inr}

-- Where no administrator is let in, the handler raises what the check raised and does no more.
abbrev IsGuarded : {A : Type 0} → Call → Exec Database A → Type 0
IsGuarded call m =
    (d : Database) (x : Exception) → (require_admin call d).0 ≡ err x → m d ≡ (err x, d)

module _ {A : Type 0} (call : Call) where
  answer-IsGuarded :
      (body : A → Body) (m : Exec Database A) → IsGuarded call m → IsGuarded call (answer body m)
  answer-IsGuarded body m guarded d x h = rw (guarded d x h) refl

  admin_write-IsGuarded :
      (run : AdminUser → Exec Database A) → IsGuarded call (admin_write call run)
  unfolding require_admin admin_write committed transaction
  admin_write-IsGuarded run d x h =
      ap
        (λ r. elim r.0 as (λ q. Result A × Database) [
          | ok a ↦ (ok a, r.1)
          | err e ↦ (err e, rolled_back d r.1)
        ])
        (bind-err (require_admin call) run d h)

  admin_read-IsGuarded : (run : AdminUser → Exec Database A) → IsGuarded call (admin_read call run)
  unfolding require_admin admin_read uncommitted
  admin_read-IsGuarded run d x h =
      ap (λ (r : Result A × Database). (r.0, rolled_back d r.1))
        (bind-err (require_admin call) run d h)

bind-IsGuarded :
    {A B : Type 0} (call : Call) (m : Exec Database A) (f : A → Exec Database B)
    → IsGuarded call m
    → IsGuarded call (m >>= f)
bind-IsGuarded {A} call m f guarded d x h =
    let first = guarded d x h in
    bind-err m f d (ap (λ r. r.0) first) ∙ ap (λ (r : Result A × Database). (err x, r.1)) first

admin_refused : (call : Call) (route : AdminRoute) → IsGuarded call (serve_admin call route)
unfolding serve_admin show_me browse_orders inspect_order get_transitions update_status
    get_inventory adjust_inventory settings_locales list_currencies settings_regions
    list_exchange_rates refresh_exchange_rates override_exchange_rate browse_catalog post_product
    inspect_product remove_product patch_product put_variant_price browse_categories post_category
    update_category
admin_refused call get_me = answer-IsGuarded call profile_body _ (admin_read-IsGuarded call _)
admin_refused call (get_admin_orders status limit offset) =
    answer-IsGuarded call orders_body _ (admin_read-IsGuarded call _)
admin_refused call (get_admin_order ref) =
    answer-IsGuarded call order_body _ (admin_read-IsGuarded call _)
admin_refused call (get_order_transitions ref) =
    answer-IsGuarded call texts_body _ (admin_read-IsGuarded call _)
admin_refused call (patch_order_status ref payload) =
    answer-IsGuarded call order_body _ (admin_write-IsGuarded call _)
admin_refused call (get_stock variant_id) =
    answer-IsGuarded call stock_body _ (admin_read-IsGuarded call _)
admin_refused call (post_stock_adjustment variant_id payload) =
    answer-IsGuarded call stock_body _ (admin_write-IsGuarded call _)
admin_refused call get_settings_locales =
    answer-IsGuarded call locales_body _ (admin_read-IsGuarded call _)
admin_refused call get_settings_currencies =
    answer-IsGuarded call currencies_body _ (admin_read-IsGuarded call _)
admin_refused call get_settings_regions =
    answer-IsGuarded call regions_body _ (admin_read-IsGuarded call _)
admin_refused call (get_rates base) =
    answer-IsGuarded call rates_body _ (admin_read-IsGuarded call _)
admin_refused call (post_rates_refresh base) =
    answer-IsGuarded call refresh_body _ (admin_write-IsGuarded call _)
admin_refused call (put_rate payload) = answer-IsGuarded call rate_body _ (
    bind-IsGuarded call _ (λ written. lift (validate_rate call written))
      (admin_write-IsGuarded call _))
admin_refused call (get_admin_products limit offset) =
    answer-IsGuarded call admin_products_body _ (admin_read-IsGuarded call _)
admin_refused call (post_admin_product payload) =
    answer-IsGuarded call admin_product_body _
      (bind-IsGuarded call _ read_product (admin_write-IsGuarded call _))
admin_refused call (get_admin_product product_id) =
    answer-IsGuarded call admin_product_body _ (admin_read-IsGuarded call _)
admin_refused call (delete_admin_product product_id) =
    answer-IsGuarded call no_body _ (admin_write-IsGuarded call _)
admin_refused call (patch_admin_product product_id payload) =
    answer-IsGuarded call admin_product_body _
      (bind-IsGuarded call _ read_product (admin_write-IsGuarded call _))
admin_refused call (put_price product_id variant_id currency_code amount) =
    answer-IsGuarded call admin_product_body _
      (bind-IsGuarded call _ (λ priced. find_and_read product_id) (admin_write-IsGuarded call _))
admin_refused call get_categories =
    answer-IsGuarded call categories_body _ (admin_read-IsGuarded call _)
admin_refused call (post_admin_category translations parent_id) =
    answer-IsGuarded call category_body _ (admin_write-IsGuarded call _)
admin_refused call (patch_admin_category category_id translations) =
    answer-IsGuarded call category_body _ (admin_write-IsGuarded call _)

-- A request to a route of the dashboard carries, after the scheme "bearer" of its Authorization
-- header, a token that python-jose decodes at that time with the secret and the algorithm of the
-- settings, to claims whose subject is the email of an account that is active, and is let in as that
-- account; or it is answered with the error UNAUTHORIZED and nothing changes.
pub serve_guarded :
    (call : Call) (route : AdminRoute) (d : Database)
    → ((user : AdminUser) × (get_admin_user call.packages call.settings.tokens call.now d.admins
            (call.headers (text "authorization"))
          ≡ ok user)
        × Carries call.packages call.settings.tokens call.now d.admins
            (call.headers (text "authorization"))
            user)
      ⊎ (serve call (admin route) d ≡ (err (plain_error unauthorized), d))
unfolding serve require_admin
serve_guarded call route d =
    elim (get_admin_user_outcome call.packages call.settings.tokens call.now d.admins
      (call.headers (text "authorization"))) [
        | inl user ↦ inl user
        | inr e ↦ inr (admin_refused call route d _ e)
      ]
