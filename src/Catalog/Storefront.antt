-- ===== src/Catalog/Storefront.antt =====
-- backend/app/domain/catalog/service.py: what the storefront shows of the catalog.
use neo_store.Catalog.Reads.{
  Catalog, media_for, find_product_id_by_slug, list_published, is_published, find_product,
  count_published,
}
use neo_store.Errors.{not_found, coded_error, product_not_found}
use neo_store.Catalog.Labels.{variant_label}
use neo_store.Pricing.{unit_price}
use neo_store.Inventory.{Stock, available}
use neo_store.Region.{Region}
use neo_store.Prelude.Int.{ℤ}
use neo_store.Locale.{default_locale, Locale, resolve_locale, translate}
use neo_store.Prelude.Text.{Text, text_eq, upper}
use neo_store.Result.{Result, ok, ◌>>=◌, err}
use neo_store.Prelude.{
  List, ℕ, Option, Bool, [], ◌∷◌, none, some, if◌then◌else◌, map, or_else, is_empty, ◌||◌,
}
use neo_store.Currency.{CurrencyTables, convert}
use neo_store.Catalog.Models.{Product, ProductStatus, Translation, Media, ProductVariant}
use neo_store.Decimal.{Decimal, leb_decimal}
use mathlib.Core.Option

pub record VariantView : Type 0 where
  pub id : ℕ
  pub sku : Text
  pub label : Option Text
  pub price : Decimal
  pub available : ℤ

pub record MediaView : Type 0 where
  pub url : Text
  pub alt : Option Text

pub record ProductCard : Type 0 where
  pub id : ℕ
  pub slug : Text
  pub name : Text
  pub price : Decimal
  pub currency : Text
  pub status : ProductStatus
  pub image : Option Text

pub record ProductDetail : Type 0 where
  pub id : ℕ
  pub slug : Text
  pub name : Text
  pub description : Option Text
  pub seo_title : Option Text
  pub seo_description : Option Text
  pub price : Decimal
  pub currency : Text
  pub status : ProductStatus
  pub variants : List VariantView
  pub media : List MediaView

-- What the reads depend on: the tables of the other services, and the settings.
pub record Views : Type 0 where
  pub catalog : Catalog
  pub currencies : CurrencyTables
  pub locales : List Locale
  pub stock : Stock
  pub configured_locale : Text
  pub configured_currency : Text

-- `CatalogService._currency_for`
unfoldable pub currency_for : Text → Option Region → Option Text → Text
currency_for configured region override =
    let fallback : Text = elim region [
      | some r ↦ upper r.currency_code
      | none ↦ upper configured
    ] in
    elim override [ some code ↦ if is_empty code then fallback else upper code | none ↦ fallback ]

-- The prices of the variants, in order, or the first exception.
unfoldable pub variant_prices :
    CurrencyTables → Product → Text → List ProductVariant → Result (List Decimal)
variant_prices t p currency [] = ok []
variant_prices t p currency (v ∷ vs) = do
  price ← unit_price t (p, v) currency
  rest ← variant_prices t p currency vs
  ok (price ∷ rest)

-- `min` of a list that begins with `best`
unfoldable pub least : Decimal → List Decimal → Decimal
least best [] = best
least best (d ∷ ds) = least (if leb_decimal best d then best else d) ds

abbrev pub least_or : Result Decimal → List Decimal → Result Decimal
least_or fallback [] = fallback
least_or fallback (d ∷ ds) = ok (least d ds)

-- `CatalogService._representative_price`
unfoldable pub representative_price : CurrencyTables → Product → Text → Result Decimal
representative_price t p currency = do
  prices ← variant_prices t p currency p.variants
  least_or (convert t p.base_price p.base_currency currency) prices

abbrev first_url : List Media → Option Text
first_url [] = none
first_url (m ∷ ms) = some m.url

abbrev locale_of_row : Translation → Text
locale_of_row t = t.locale

-- The loop of `list_products`; a product without a translation is passed over.
unfoldable pub cards : Views → Text → Text → List Product → Result (List ProductCard)
cards w locale currency [] = ok []
cards w locale currency (p ∷ ps) =
    elim (translate locale_of_row (default_locale w.configured_locale w.locales) p.translations
      locale) [
        | none ↦ cards w locale currency ps
        | some translation ↦ do
          price ← representative_price w.currencies p currency
          rest ← cards w locale currency ps
          ok (
              record {
                id = p.id;
                slug = translation.slug;
                name = translation.name;
                price = price;
                currency = currency;
                status = p.status;
                image = first_url (media_for w.catalog p.id);
              }
              ∷ rest)
      ]

-- `CatalogService.list_products`
unfoldable pub list_products :
    Views
    → Option Text
    → Option Region
    → Option Text
    → Option ℕ
    → ℕ
    → ℕ
    → Result (List ProductCard × ℕ)
list_products w locale region currency_code category limit offset = do
  let resolved = resolve_locale w.configured_locale w.locales locale
  let currency = currency_for w.configured_currency region currency_code
  shown ← cards w resolved currency (list_published w.catalog limit offset category)
  ok (shown, count_published w.catalog category)

-- The loop of `_to_detail`.
unfoldable pub variant_views :
    Views → Product → Text → Text → List ProductVariant → Result (List VariantView)
variant_views w p locale currency [] = ok []
variant_views w p locale currency (v ∷ vs) = do
  price ← unit_price w.currencies (p, v) currency
  rest ← variant_views w p locale currency vs
  ok (
      record {
        id = v.id;
        sku = v.sku;
        label = variant_label v locale (default_locale w.configured_locale w.locales);
        price = price;
        available = available v.id w.stock;
      }
      ∷ rest)

abbrev text_of : Option Text → Text
text_of none = []
text_of (some s) = s

-- `CatalogService._to_detail`
unfoldable pub to_detail :
    Views → Product → Text → Option Region → Option Text → Result ProductDetail
to_detail w p locale region currency_code = do
  let currency = currency_for w.configured_currency region currency_code
  let row =
      translate locale_of_row (default_locale w.configured_locale w.locales) p.translations locale
  variants ← variant_views w p locale currency p.variants
  cheapest ←
      least_or (convert w.currencies p.base_price p.base_currency currency)
        (map (λ (v : VariantView). v.price) variants)
  ok (record {
    id = p.id;
    slug = text_of (Option.map (λ (t : Translation). t.slug) row);
    name = text_of (Option.map (λ (t : Translation). t.name) row);
    description = Option.bind row (λ (t : Translation). t.description);
    seo_title = Option.bind row (λ (t : Translation). t.seo_title);
    seo_description = Option.bind row (λ (t : Translation). t.seo_description);
    price = cheapest;
    currency = currency;
    status = p.status;
    variants = variants;
    media = map (λ (m : Media). record { url = m.url; alt = m.alt }) (media_for w.catalog p.id);
  })

-- The product of a slug, in the locale of the request or else in the default one.
unfoldable pub product_by_slug : Views → Text → Text → Option Product
product_by_slug w slug locale =
    let default = default_locale w.configured_locale w.locales in
    let there = find_product_id_by_slug w.catalog slug locale in
    let id =
      if text_eq locale default
      then there
      else or_else there (find_product_id_by_slug w.catalog slug default) in
    Option.bind id (find_product w.catalog)

-- A product that is not published shows only where `include_unpublished` is set.
unfoldable pub show_product :
    Views → Text → Option Region → Option Text → Bool → Option Product → Result ProductDetail
show_product w locale region currency_code include_unpublished none =
    err (coded_error not_found product_not_found)
show_product w locale region currency_code include_unpublished (some p) =
    if is_published p.status || include_unpublished
    then to_detail w p locale region currency_code
    else err (coded_error not_found product_not_found)

-- `CatalogService.get_product_by_slug`
unfoldable pub get_product_by_slug :
    Views → Text → Option Text → Option Region → Option Text → Bool → Result ProductDetail
unfolding product_by_slug show_product
get_product_by_slug w slug locale region currency_code include_unpublished =
    let resolved = resolve_locale w.configured_locale w.locales locale in
    show_product w resolved region currency_code include_unpublished
      (product_by_slug w slug resolved)
