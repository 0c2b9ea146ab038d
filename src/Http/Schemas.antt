-- ===== src/Http/Schemas.antt =====
-- The schemas that the routes of backend/app/api/v1 answer with: backend/app/domain/cart/schemas.py,
-- order/schemas.py, currency/schemas.py, i18n/schemas.py, and the classes of the route modules. The
-- times of events and rates are left out.
use neo_store.Order.Status.{OrderStatus}
use neo_store.Decimal.{Decimal}
use neo_store.Order.Models.{Order, OrderLine, OrderEvent}
use neo_store.Prelude.Int.{ℤ}
use neo_store.Inventory.{InventoryItem, item_available}
use neo_store.Currency.{ExchangeRate}
use neo_store.Locale.{Locale}
use neo_store.Prelude.Text.{Text}
use neo_store.Catalog.Models.{Category, Translation}
use neo_store.Pricing.{PriceBreakdown}
use neo_store.Cart.{Cart, CartLine, CartStatus}
use neo_store.Prelude.{ℕ, List, Option, map, Bool}

pub record CartLineRead : Type 0 where
  pub id : ℕ
  pub variant_id : ℕ
  pub quantity : ℤ
  pub unit_price : Decimal
  pub currency_code : Text

pub record CartRead : Type 0 where
  pub token : Text
  pub region_code : Text
  pub currency_code : Text
  pub status : CartStatus
  pub lines : List CartLineRead

abbrev read_line : CartLine → CartLineRead
read_line l = record {
  id = l.id;
  variant_id = l.variant_id;
  quantity = l.quantity;
  unit_price = l.unit_price;
  currency_code = l.currency_code;
}

-- `_read` of store/carts.py
unfoldable pub read_cart : Cart → CartRead
read_cart cart = record {
  token = cart.token;
  region_code = cart.region_code;
  currency_code = cart.currency_code;
  status = cart.status;
  lines = map read_line cart.lines;
}

-- `CartTotalsRead`, and the answer of `cart_totals`
pub record CartTotalsRead : Type 0 where
  pub currency : Text
  pub subtotal : Decimal
  pub shipping_fee : Decimal
  pub tax : Decimal
  pub total : Decimal

unfoldable pub read_totals : PriceBreakdown → CartTotalsRead
read_totals b = record {
  currency = b.currency;
  subtotal = b.subtotal;
  shipping_fee = b.shipping_fee;
  tax = b.tax;
  total = b.total;
}

-- `OrderRead`; its lines and events are shown with all their columns.
pub record OrderRead : Type 0 where
  pub id : ℕ
  pub number : Text
  pub status : OrderStatus
  pub region_code : Text
  pub currency_code : Text
  pub email : Text
  pub shipping_address : Text
  pub subtotal : Decimal
  pub shipping_fee : Decimal
  pub tax : Decimal
  pub total : Decimal
  pub lines : List OrderLine
  pub events : List OrderEvent

-- `OrderRead.model_validate(order)`
unfoldable pub read_order : Order → OrderRead
read_order o = record {
  id = o.id;
  number = o.number;
  status = o.status;
  region_code = o.region_code;
  currency_code = o.currency_code;
  email = o.email;
  shipping_address = o.shipping_address;
  subtotal = o.subtotal;
  shipping_fee = o.shipping_fee;
  tax = o.tax;
  total = o.total;
  lines = o.lines;
  events = o.events;
}

pub record OrderListPage : Type 0 where
  pub items : List OrderRead
  pub total : ℕ
  pub limit : ℤ
  pub offset : ℤ

-- `CheckoutRequest`
pub record CheckoutRequest : Type 0 where
  pub cart_token : Text
  pub email : Text
  pub shipping_address : Text
  pub payment_provider : Text

-- `OrderStatusUpdate`
pub record OrderStatusUpdate : Type 0 where
  pub status : Text
  pub note : Option Text

-- `InventoryAdjustment`
pub record InventoryAdjustment : Type 0 where
  pub delta : ℤ
  pub reason : Text
  pub note : Option Text

-- `InventoryRead` of admin/inventory.py
pub record InventoryRead : Type 0 where
  pub variant_id : ℕ
  pub quantity : ℤ
  pub reserved : ℤ
  pub available : ℤ

unfoldable pub read_item : ℕ → InventoryItem → InventoryRead
read_item variant_id item = record {
  variant_id = variant_id;
  quantity = item.quantity;
  reserved = item.reserved;
  available = item_available item;
}

pub record LocaleRead : Type 0 where
  pub code : Text
  pub name : Text
  pub is_default : Bool

abbrev pub read_locale : Locale → LocaleRead
read_locale l = record { code = l.code; name = l.name; is_default = l.is_default }

pub record ExchangeRateRead : Type 0 where
  pub base_code : Text
  pub quote_code : Text
  pub rate : Decimal
  pub source : Text
  pub fetched_at : ℕ

abbrev pub read_rate : ExchangeRate → ExchangeRateRead
read_rate r = record {
  base_code = r.base_code;
  quote_code = r.quote_code;
  rate = r.rate;
  source = r.source;
  fetched_at = r.fetched_at;
}

-- `ExchangeRateOverride`
pub record ExchangeRateOverride : Type 0 where
  pub base_code : Text
  pub quote_code : Text
  pub rate : Decimal
  pub source : Text

-- `RefreshResult` of admin/settings.py
pub record RefreshResult : Type 0 where
  pub updated : ℕ
  pub base : Text

-- `CategoryTranslationRead` and `CategoryRead` of admin/categories.py
pub record CategoryTranslationRead : Type 0 where
  pub locale : Text
  pub name : Text
  pub slug : Text

pub record CategoryRead : Type 0 where
  pub id : ℕ
  pub parent_id : Option ℕ
  pub path : Text
  pub translations : List CategoryTranslationRead

abbrev read_translation : Translation → CategoryTranslationRead
read_translation t = record { locale = t.locale; name = t.name; slug = t.slug }

-- `_serialize` of admin/categories.py
unfoldable pub serialize : Category → CategoryRead
serialize c = record {
  id = c.id;
  parent_id = c.parent_id;
  path = c.path;
  translations = map read_translation c.translations;
}

-- `AdminProfile` and `TokenResponse` of admin/auth.py
pub record AdminProfile : Type 0 where
  pub email : Text
  pub role : Text

pub record TokenResponse : Type 0 where
  pub access_token : Text
  pub token_type : Text
