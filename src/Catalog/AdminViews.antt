-- ===== src/Catalog/AdminViews.antt =====
-- What the dashboard shows of the catalog: the schemas of backend/app/domain/catalog/schemas.py that
-- its routes answer with, and `to_admin_read` of admin_service.py. A translation is shown with all
-- its columns.
use neo_store.Currency.{set_entry}
use neo_store.Decimal.{Decimal}
use neo_store.Catalog.Reads.{Catalog, media_for}
use neo_store.Prelude.Int.{ℤ}
use neo_store.Inventory.{Stock, available}
use neo_store.Catalog.Store.{Store}
use neo_store.Catalog.Models.{
  Product, Media, ProductStatus, ProductVariant, VariantPrice, Translation,
}
use neo_store.Prelude.Text.{Text}
use neo_store.Prelude.{ℕ, List, map, Option, [], Bool, ◌∷◌}

pub record AdminVariantRead : Type 0 where
  pub id : ℕ
  pub sku : Text
  pub position : ℤ
  pub prices : List (Text × Decimal)
  pub available : ℤ

pub record AdminMediaRead : Type 0 where
  pub url : Text
  pub alt : Option Text
  pub position : ℤ
  pub is_primary : Bool

pub record AdminProductRead : Type 0 where
  pub id : ℕ
  pub status : ProductStatus
  pub product_type : Text
  pub base_price : Decimal
  pub base_currency : Text
  pub position : ℤ
  pub translations : List Translation
  pub variants : List AdminVariantRead
  pub media : List AdminMediaRead

pub record AdminProductListPage : Type 0 where
  pub items : List AdminProductRead
  pub total : ℕ
  pub limit : ℕ
  pub offset : ℕ

-- `{row.currency_code: row.amount for row in variant.prices}`, from the entries so far
unfoldable pub price_entries : List VariantPrice → List (Text × Decimal) → List (Text × Decimal)
price_entries [] entries = entries
price_entries (p ∷ ps) entries = price_entries ps (set_entry p.currency_code p.amount entries)

unfoldable pub admin_variant : Stock → ProductVariant → AdminVariantRead
admin_variant stock v = record {
  id = v.id;
  sku = v.sku;
  position = v.position;
  prices = price_entries v.prices [];
  available = available v.id stock;
}

abbrev pub catalog_of : Store → Catalog
catalog_of s = record { products = s.products; memberships = s.memberships; media = s.media }

-- `AdminMediaRead.model_validate(row)`
abbrev pub admin_media : Media → AdminMediaRead
admin_media m = record {
  url = m.url;
  alt = m.alt;
  position = m.position;
  is_primary = m.is_primary;
}

-- `CatalogAdminService.to_admin_read`
unfoldable pub to_admin_read : Product → Store → AdminProductRead
to_admin_read p s = record {
  id = p.id;
  status = p.status;
  product_type = p.product_type;
  base_price = p.base_price;
  base_currency = p.base_currency;
  position = p.position;
  translations = p.translations;
  variants = map (admin_variant s.stock) p.variants;
  media = map admin_media (media_for (catalog_of s) p.id);
}
