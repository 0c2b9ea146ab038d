-- ===== src/Tests/Pages.antt =====
-- Witnesses for what the storefront shows.
use neo_store.Result.{ok}
use neo_store.Inventory.{available, item_available, get_item}
use neo_store.Catalog.Labels.{variant_label}
use neo_store.Decimal.{quantize, context, with_sign, half_up}
use neo_store.Currency.{convert, round_money, decimal_places, get_currency}
use neo_store.Pricing.{unit_price, explicit_price}
use neo_store.Locale.{resolve_locale, default_locale, default_code, translate, find_last}
use neo_store.Prelude.Int.{pos, ◌-ℤ◌, ◌*ℤ◌}
use neo_store.Catalog.Visible.{Published, get_product_by_slug_published, list_published-All}
use neo_store.Prelude.Text.{text, upper, upper_char}
use neo_store.Tests.Data.{mug, currencies, english, stock}
use neo_store.Catalog.Models.{Translation, Product, published, archived}
use neo_store.Catalog.Reads.{
  Catalog, list_published, find_product_id_by_slug, find_product, media_for,
}
use neo_store.Prelude.{◌≡◌, All, ◌∷◌, none, [], false, refl}
use neo_store.Catalog.Storefront.{
  get_product_by_slug, Views, ProductDetail, product_by_slug, show_product, to_detail, currency_for,
  variant_views, least,
}
use neo_store.Prelude.Table
use mathlib.Core.Option

abbrev words : Translation
words = record {
  locale = text "en";
  name = text "Mug";
  slug = text "mug";
  description = none;
  seo_title = none;
  seo_description = none;
}

abbrev shown_mug : Product
shown_mug = record mug { translations = words ∷ [] }

abbrev hidden : Product
hidden = record mug { id = 2; status = archived }

abbrev catalog : Catalog
catalog = record { products = hidden ∷ shown_mug ∷ []; memberships = []; media = [] }

abbrev views : Views
views = record {
  catalog = catalog;
  currencies = currencies;
  locales = english ∷ [];
  stock = stock;
  configured_locale = text "en";
  configured_currency = text "USD";
}

list_published-All_example : All Published (list_published catalog 20 0 none)
list_published-All_example = list_published-All catalog 20 0 none

abbrev page : ProductDetail
page = record {
  id = 1;
  slug = text "mug";
  name = text "Mug";
  description = none;
  seo_title = none;
  seo_description = none;
  price = record { coeff = pos 1250; places = 2 };
  currency = text "USD";
  status = published;
  variants =
      record {
        id = 7;
        sku = text "MUG";
        label = none;
        price = record { coeff = pos 1250; places = 2 };
        available = pos 10;
      }
      ∷ [];
  media = [];
}

opened_page : get_product_by_slug views (text "mug") none none none false ≡ ok page
unfolding get_product_by_slug product_by_slug show_product to_detail currency_for variant_views
    find_product_id_by_slug find_product Table.get resolve_locale default_locale default_code
    translate find_last unit_price explicit_price convert round_money quantize context
    decimal_places get_currency upper upper_char with_sign half_up least variant_label available
    item_available get_item ◌-ℤ◌ ◌*ℤ◌ media_for Option.bind
opened_page = refl

get_product_by_slug_published_example : page.status ≡ published
get_product_by_slug_published_example =
    get_product_by_slug_published views (text "mug") none none none opened_page
