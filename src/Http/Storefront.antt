-- ===== src/Http/Storefront.antt =====
-- The routes of backend/app/api/v1/store: regions, locales, products, carts, checkout and orders.
-- Each handler is the call of a service, with the dependencies resolved and the payload checked
-- before it, and the commit after it where the source has one.
use neo_store.Errors.{coded_error, not_found, mock_payments_disabled}
use neo_store.Locale.{list_active}
use neo_store.Catalog.Storefront.{list_products, ProductCard, ProductDetail, get_product_by_slug}
use neo_store.Cart.{get_by_token, create, update_line, add_line, totals, remove_line}
use neo_store.Order.Shop.{on_carts}
use neo_store.Result
use neo_store.Result.{ok, Result}
use neo_store.Exec.{◌>>=◌, ◌>>◌, Exec, pure, gets, raise_if}
use neo_store.Order.Service.{Request, get_order, checkout, pay}
use neo_store.Region.{Region, RegionDetail, resolve_region, from_region, list_all}
use neo_store.Http.Schemas.{
  CheckoutRequest, OrderRead, CartRead, CartTotalsRead, LocaleRead, read_order, read_locale,
  read_cart, read_totals,
}
use neo_store.Prelude.Int.{ℤ, leb_ℤ, pos, to_nat}
use neo_store.Prelude.Text.{Text, text}
use neo_store.Http.{
  Call, Database, uncommitted, reads, committed, on_shop, get_region, validate, get_locale, or_text,
  env_of, views_of, shelf_of,
}
use neo_store.Prelude.{ℕ, Option, Bool, List, ◌&&◌, some, none, map, not, false}

abbrev pub day : ℕ
day = 86400

-- `Query(ge=1, le=most)` for a limit, and `Query(ge=0)` for an offset
abbrev pub valid_page : ℤ → ℤ → ℤ → Bool
valid_page most limit offset = leb_ℤ (pos 1) limit && (leb_ℤ limit most && leb_ℤ (pos 0) offset)

-- What `list_products` answers, with the headers that it sets.
pub record ProductPage : Type 0 where
  pub total_count : ℕ
  pub content_language : Text
  pub currency : Text
  pub cards : List ProductCard

module _ (call : Call) where
  unfoldable pub list_regions : Exec Database (List RegionDetail)
  list_regions = uncommitted (reads (λ d. ok (map from_region (list_all d.regions))))

  unfoldable pub list_locales : Exec Database (List LocaleRead)
  list_locales = uncommitted (reads (λ d. ok (map read_locale (list_active d.locales))))

  -- `list_products` of store/products.py
  unfoldable pub browse_products : Option ℕ → ℤ → ℤ → Exec Database ProductPage
  browse_products category limit offset = uncommitted do
    locale ← gets (get_locale call)
    region ← reads (get_region call)
    validate (valid_page (pos 100) limit offset)
    (cards, total) ← reads (λ d.
        list_products (views_of call d) (some locale) (some region) none category (to_nat limit)
          (to_nat offset))
    pure (record {
      total_count = total;
      content_language = locale;
      currency = region.currency_code;
      cards = cards;
    })

  -- `get_product` of store/products.py, with the language and the currency that its headers name
  unfoldable pub show_product_page : Text → Exec Database (ProductDetail × Text)
  show_product_page slug = uncommitted do
    locale ← gets (get_locale call)
    region ← reads (get_region call)
    detail ←
        reads
          (λ d. get_product_by_slug (views_of call d) slug (some locale) (some region) none false)
    pure (detail, locale)

  -- The region of the body, if there is one, and else the negotiated one, which is resolved before.
  unfoldable pub cart_region : Option Text → Database → Result Region
  cart_region payload_region d = Result.◌>>=◌ (get_region call d) λ region.
      elim (or_text payload_region none) [
        | none ↦ ok region
        | some code ↦ resolve_region d.regions (some code)
      ]

  unfoldable pub create_cart : Option Text → Exec Database CartRead
  create_cart payload_region = committed do
    target ← reads (cart_region payload_region)
    cart ← on_shop (λ d.
        on_carts
          (create call.cart_id call.cart_token call.now day target.code target.currency_code))
    pure (read_cart cart)

  unfoldable pub get_cart : Text → Exec Database CartRead
  get_cart token =
      uncommitted
        do cart ← on_shop (λ d. on_carts (get_by_token call.now token)); pure (read_cart cart)

  unfoldable pub cart_totals : Text → Exec Database CartTotalsRead
  cart_totals token = uncommitted do
    breakdown ← on_shop (λ d. on_carts (totals (shelf_of call d) token))
    pure (read_totals breakdown)

  -- `add_line` of store/carts.py; the quantity has `Field(ge=1)`
  unfoldable pub post_line : Text → ℕ → ℤ → Exec Database CartRead
  post_line token variant_id quantity = committed do
    validate (leb_ℤ (pos 1) quantity)
    cart ←
        on_shop (λ d. on_carts (add_line (shelf_of call d) call.line_id token variant_id quantity))
    pure (read_cart cart)

  -- `update_line` of store/carts.py; the quantity has `Field(ge=0)`
  unfoldable pub patch_line : Text → ℕ → ℤ → Exec Database CartRead
  patch_line token line_id quantity = committed do
    validate (leb_ℤ (pos 0) quantity)
    cart ← on_shop (λ d. on_carts (update_line call.now token line_id quantity))
    pure (read_cart cart)

  -- `remove_line` of store/carts.py
  unfoldable pub delete_line : Text → ℕ → Exec Database CartRead
  delete_line token line_id =
      committed do
        cart ← on_shop (λ d. on_carts (remove_line call.now token line_id))
        pure (read_cart cart)

  -- What the route hands to `OrderService.checkout`.
  abbrev pub checkout_request : CheckoutRequest → Text → Request
  checkout_request payload locale = record {
    cart_token = payload.cart_token;
    email = payload.email;
    shipping_address = payload.shipping_address;
    idempotency_key = call.headers (text "idempotency-key");
    locale = some locale;
    provider_code = payload.payment_provider;
  }

  -- `checkout` of store/checkout.py
  unfoldable pub post_checkout : CheckoutRequest → Exec Database OrderRead
  post_checkout payload = committed do
    locale ← gets (get_locale call)
    order ← on_shop (λ d. checkout (env_of call d) call.draws (checkout_request payload locale))
    pure (read_order order)

  -- `get_order` of store/orders.py
  unfoldable pub show_order : Text → Exec Database OrderRead
  show_order number =
      uncommitted do order ← on_shop (λ d. get_order number); pure (read_order order)

  -- `pay_order` of store/orders.py
  unfoldable pub pay_order : Text → Exec Database OrderRead
  pay_order number = committed do
    raise_if (not call.settings.enable_mock_payments) (coded_error not_found mock_payments_disabled)
    order ← on_shop (λ d. pay (env_of call d) number (text "mock"))
    pure (read_order order)
