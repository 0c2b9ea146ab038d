-- ===== src/Http/Dashboard.antt =====
-- The routes of backend/app/api/v1/admin for logins, orders, stock and settings. All but the login
-- ask for an administrator before anything else is looked at.
use neo_store.Currency.Registry.{list_rates}
use neo_store.Locale.{list_active}
use neo_store.Inventory.{adjust, ensure_item}
use neo_store.Http.Storefront.{valid_page}
use neo_store.Order.Shop.{on_stock}
use neo_store.Order.Service.{get_by_ref, transition, list_orders}
use neo_store.Security.{login}
use neo_store.Region.{RegionDetail, from_region, list_all}
use neo_store.Order.Status.{OrderStatus, validate_status, allowed_targets}
use neo_store.Prelude.Int.{ℤ, pos, to_nat}
use neo_store.Result.{Result, ok}
use neo_store.Currency.{
  CurrencyTables, Currency, upsert_rate, refresh_rates, fetch, ExchangeRate, get_rate,
}
use neo_store.Prelude.Text.{Text, upper, text}
use neo_store.Exec.{Exec, ◌>>=◌, ◌>>◌, lift, pure}
use neo_store.Http.Schemas.{
  ExchangeRateOverride, InventoryAdjustment, OrderStatusUpdate, AdminProfile, ExchangeRateRead,
  InventoryRead, OrderListPage, OrderRead, RefreshResult, TokenResponse, LocaleRead, read_locale,
  read_rate, read_item, read_order,
}
use neo_store.Http.{
  Call, Database, uncommitted, reads, on_currencies, on_shop, validate, env_of, admin_read,
  admin_write,
}
use neo_store.Prelude.{
  ℕ, Option, List, some, if◌then◌else◌, is_empty, map, none, Bool, false, is_some, true,
}
use neo_store.Result
use neo_store.Currency.Registry

-- `_validate_status(status) if status else None`
abbrev target_status : Option Text → Result (Option OrderStatus)
target_status none = ok none
target_status (some raw) =
    if is_empty raw then ok none else Result.◌>>=◌ (validate_status raw) λ s. ok (some s)

module _ (call : Call) where
  -- `login` of admin/auth.py
  unfoldable pub post_login : Text → Text → Exec Database TokenResponse
  post_login email password = uncommitted do
    token ← reads (λ d. login call.packages call.settings.tokens call.now d.admins email password)
    pure (record { access_token = token; token_type = text "bearer" })

  -- `me` of admin/auth.py
  unfoldable pub show_me : Exec Database AdminProfile
  show_me = admin_read call λ user. pure (record { email = user.email; role = user.role })

  -- `list_orders` of admin/orders.py
  unfoldable pub browse_orders : Option Text → ℤ → ℤ → Exec Database OrderListPage
  browse_orders status limit offset = admin_read call λ admin. do
    validate (valid_page (pos 200) limit offset)
    target ← lift (target_status status)
    (rows, total) ← on_shop (λ d. list_orders target (to_nat limit) (to_nat offset))
    pure (record { items = map read_order rows; total = total; limit = limit; offset = offset })

  -- `get_order` of admin/orders.py
  unfoldable pub inspect_order : Text → Exec Database OrderRead
  inspect_order ref =
      admin_read call
        λ admin. do order ← on_shop (λ d. get_by_ref (env_of call d) ref); pure (read_order order)

  unfoldable pub get_transitions : Text → Exec Database (List Text)
  get_transitions ref = admin_read call λ admin. do
    order ← on_shop (λ d. get_by_ref (env_of call d) ref)
    pure (allowed_targets order.status)

  unfoldable pub update_status : Text → OrderStatusUpdate → Exec Database OrderRead
  update_status ref payload = admin_write call λ admin. do
    target ← lift (validate_status payload.status)
    order ← on_shop (λ d. transition (env_of call d) ref target payload.note)
    pure (read_order order)

  -- `get_inventory`, which adds a row to the session and does not commit it
  unfoldable pub get_inventory : ℕ → Exec Database InventoryRead
  get_inventory variant_id = admin_read call λ admin. do
    item ← on_shop (λ d. on_stock (ensure_item variant_id (pos 0)))
    pure (read_item variant_id item)

  unfoldable pub adjust_inventory : ℕ → InventoryAdjustment → Exec Database InventoryRead
  adjust_inventory variant_id payload = admin_write call λ admin. do
    item ← on_shop (λ d. on_stock (adjust variant_id payload.delta payload.reason payload.note))
    pure (read_item variant_id item)

  -- `list_locales` of admin/settings.py
  unfoldable pub settings_locales : Exec Database (List LocaleRead)
  settings_locales =
      admin_read call λ admin. reads (λ d. ok (map read_locale (list_active d.locales)))

  unfoldable pub list_currencies : Exec Database (List Currency)
  list_currencies = admin_read call λ admin. reads (λ d. ok (Registry.list_active d.currencies))

  -- `list_regions` of admin/settings.py
  unfoldable pub settings_regions : Exec Database (List RegionDetail)
  settings_regions = admin_read call λ admin. reads (λ d. ok (map from_region (list_all d.regions)))

  unfoldable pub list_exchange_rates : Text → Exec Database (List ExchangeRateRead)
  list_exchange_rates base =
      admin_read call λ admin. reads (λ d. ok (map read_rate (list_rates base d.currencies)))

  -- The provider is the one that `get_exchange_rate_provider` makes.
  unfoldable pub refresh_exchange_rates : Text → Exec Database RefreshResult
  refresh_exchange_rates base = admin_write call λ admin. do
    updated ←
        on_currencies (refresh_rates base (text "open-exchange-rate") call.now (fetch call.rates))
    pure (record { updated = updated; base = upper base })

  -- The row that `upsert_rate` returns, and whether its `fetched_at` is expired: on a pair that is
  -- stored it was assigned `func.now()`, which the flush leaves to be loaded.
  unfoldable pub write_rate : ExchangeRateOverride → Exec CurrencyTables (ExchangeRate × Bool)
  write_rate payload t = (
    ok (
      record {
        base_code = upper payload.base_code;
        quote_code = upper payload.quote_code;
        rate = payload.rate;
        source = payload.source;
        fetched_at = call.now;
      },
      is_some (get_rate t payload.base_code payload.quote_code),
    ),
    upsert_rate payload.base_code payload.quote_code payload.rate payload.source call.now t,
  )

  -- `ExchangeRateRead.model_validate(row)`, after the commit
  unfoldable pub validate_rate : ExchangeRate × Bool → Result ExchangeRateRead
  validate_rate (row, false) = ok (read_rate row)
  validate_rate (row, true) =
      Result.◌>>=◌ (call.lazy_load row.fetched_at)
        λ fetched_at. ok (read_rate (record row { fetched_at = fetched_at }))

  unfoldable pub override_exchange_rate : ExchangeRateOverride → Exec Database ExchangeRateRead
  override_exchange_rate payload = do
    written ← admin_write call λ admin. on_currencies (write_rate payload)
    lift (validate_rate written)
