-- ===== src/Catalog/Admin.antt =====
-- backend/app/domain/catalog/admin_service.py: the administrator's edits of products. The ids that
-- the database gives to new rows are arguments; an optional field of a payload that is absent is none.
use neo_store.Cart.{Cart, CartLine}
use neo_store.Catalog.Store.{TranslationFields, Store, get_or}
use neo_store.Errors.{
  not_found, coded_error, domain, variant_not_found, product_not_found, invalid_product_status,
}
use neo_store.Prelude.Int.{ℤ}
use neo_store.Decimal.{Decimal}
use neo_store.Catalog.Reads.{product_key}
use neo_store.Result.{Result, ok, err}
use neo_store.Inventory.{Stock, ensure_item, InventoryItem, StockMovement}
use neo_store.Exec.{◌>>=◌, ◌>>◌, Exec, or_raise, modify, lift, gets, raise_if, pure}
use neo_store.Prelude.Text.{Text, text_eq, lower, upper, text}
use neo_store.Prelude.{
  Option, ℕ, List, some, [], ◌∷◌, if◌then◌else◌, ◌++◌, none, ◌==◌, map, not, is_some, Bool, select,
  length, any, take, drop,
}
use neo_store.Catalog.Models.{
  Product, ProductStatus, Translation, VariantPrice, ProductVariant, draft, published, find_variant,
  archived,
}
use neo_store.Prelude.Table
use mathlib.Core.List.{reverse}
use mathlib.Core.Option

-- The row that a locale gets when it has none, and the row that it had with the fields assigned.
unfoldable pub new_translation : Text → TranslationFields → Translation
new_translation locale f = record {
  locale = locale;
  name = get_or [] f.name;
  slug = get_or [] f.slug;
  description = get_or none f.description;
  seo_title = get_or none f.seo_title;
  seo_description = get_or none f.seo_description;
}

changed_translation : TranslationFields → Translation → Translation
changed_translation f t = record t {
  name = get_or t.name f.name;
  slug = get_or t.slug f.slug;
  description = get_or t.description f.description;
  seo_title = get_or t.seo_title f.seo_title;
  seo_description = get_or t.seo_description f.seo_description;
}

-- One round of `_apply_translations`.
apply_fields : Text → TranslationFields → List Translation → List Translation
unfolding new_translation changed_translation
apply_fields locale f [] = new_translation locale f ∷ []
apply_fields locale f (t ∷ ts) =
    let rest = apply_fields locale f ts in
    if text_eq t.locale locale then changed_translation f t ∷ ts else t ∷ rest

-- `CatalogAdminService._apply_translations`
unfoldable pub apply_translations :
    List (Text × TranslationFields) → List Translation → List Translation
unfolding apply_fields
apply_translations [] rows = rows
apply_translations ((locale, f) ∷ rest) rows = apply_translations rest (apply_fields locale f rows)

-- `CatalogAdminService._status`, for a text
unfoldable pub product_status : Text → Result ProductStatus
product_status raw =
    if text_eq (lower raw) (text "draft")
    then ok draft
    else if text_eq (lower raw) (text "published")
    then ok published
    else if text_eq (lower raw) (text "archived")
    then ok archived
    else err (domain not_found invalid_product_status 422)

unfoldable pub put_product : Product → Store → Store
put_product p s = record s { products = Table.put product_key p s.products }

-- `CatalogAdminService.get_product`
unfoldable pub get_product : ℕ → Exec Store Product
get_product id s =
    or_raise (Table.get product_key id s.products) (coded_error not_found product_not_found) s

abbrev pub to_stock : {A : Type 0} → Exec Stock A → Exec Store A
to_stock m s = let (r, t) = m s.stock in (r, record s { stock = t })

variant_with : ℕ → Text → ℤ → List (Text × Decimal) → ProductVariant
variant_with id sku position prices = record {
  id = id;
  sku = sku;
  position = position;
  prices = map (λ (p : Text × Decimal). record { currency_code = upper p.0; amount = p.1 }) prices;
  option_values = [];
}

-- `product.variants.append(variant)`
unfoldable pub grown_by : ℕ → Text → ℤ → List (Text × Decimal) → Product → Product
unfolding variant_with
grown_by id sku position prices p = record p {
  variants = p.variants ++ variant_with id sku position prices ∷ [];
}

-- `CatalogAdminService.add_variant`, which gives the product with the variant at its end
unfoldable pub add_variant : ℕ → Product → Text → List (Text × Decimal) → ℤ → ℤ → Exec Store Product
add_variant id p sku prices quantity position = do
  modify (put_product (grown_by id sku position prices p))
  to_stock (ensure_item id quantity)
  pure (grown_by id sku position prices p)

-- The fields of `ProductPatch`.
pub record ProductPatch : Type 0 where
  pub status : Option Text
  pub base_price : Option Decimal
  pub base_currency : Option Text
  pub position : Option ℤ
  pub translations : Option (List (Text × TranslationFields))

abbrev pub status_or : ProductStatus → Option Text → Result ProductStatus
status_or current none = ok current
status_or current (some raw) = product_status raw

-- `CatalogAdminService.update_product`
unfoldable pub update_product : ℕ → ProductPatch → Exec Store Product
unfolding put_product
update_product id patch = do
  p ← get_product id
  status ← lift (status_or p.status patch.status)
  let updated = record p {
    status = status;
    base_price = get_or p.base_price patch.base_price;
    base_currency = get_or p.base_currency (Option.map upper patch.base_currency);
    position = get_or p.position patch.position;
    translations = apply_translations (get_or [] patch.translations) p.translations;
  }
  modify (put_product updated)
  pure updated

without : ℕ → List Product → List Product
without id [] = []
without id (p ∷ ps) = let rest = without id ps in if p.id == id then rest else p ∷ rest

abbrev pub owned : List ProductVariant → ℕ → Bool
owned variants id = any (λ (v : ProductVariant). v.id == id) variants

-- The rows of other tables that go with the variants of a product, by their foreign keys.
unfoldable pub cascade : Product → Store → Store
cascade p s = record s {
  memberships = select (λ (m : ℕ × ℕ). not (m.0 == p.id)) s.memberships;
  stock = record {
    items = select (λ (i : InventoryItem). not (owned p.variants i.variant_id)) s.stock.items;
    movements =
        select (λ (m : StockMovement). not (owned p.variants m.variant_id)) s.stock.movements;
  };
  carts =
      map
        (λ (c : Cart). record c {
          lines = select (λ (l : CartLine). not (owned p.variants l.variant_id)) c.lines;
        })
        s.carts;
}

-- `CatalogAdminService.delete_product`; the database cascades to the rows that refer to the
-- variants, which order lines do not
unfoldable pub delete_product : ℕ → Exec Store (Unit {0})
unfolding without
delete_product id = do
  p ← get_product id
  modify (λ s. cascade p (record s { products = without id s.products }))

-- The price of a currency assigned, or put at the end.
priced_in : Text → Decimal → List VariantPrice → List VariantPrice
priced_in code amount [] = record { currency_code = code; amount = amount } ∷ []
priced_in code amount (p ∷ ps) =
    let rest = priced_in code amount ps in
    if text_eq p.currency_code code then record p { amount = amount } ∷ ps else p ∷ rest

price_variant : ℕ → Text → Decimal → ProductVariant → ProductVariant
unfolding priced_in
price_variant id code amount v =
    if v.id == id then record v { prices = priced_in code amount v.prices } else v

-- `CatalogAdminService.set_variant_price`
unfoldable pub set_variant_price : ℕ → Text → Decimal → Exec Store VariantPrice
unfolding price_variant
set_variant_price id currency_code amount = do
  s ← gets (λ s. s)
  raise_if (not (is_some (find_variant id s.products))) (coded_error not_found variant_not_found)
  let price_all = λ (p : Product). record p {
    variants = map (price_variant id (upper currency_code) amount) p.variants;
  }
  modify (λ s. record s { products = map price_all s.products })
  pure (record { currency_code = upper currency_code; amount = amount })

-- `CatalogAdminService.count_products`
unfoldable pub count_products : Store → ℕ
count_products s = length s.products

-- `CatalogRepository.list_all`: the newest row first
unfoldable pub list_all : ℕ → ℕ → Store → List Product
list_all limit offset s = take limit (drop offset (reverse s.products))

-- `CatalogAdminService.list_products`
unfoldable pub list_products : ℕ → ℕ → Exec Store (List Product × ℕ)
list_products limit offset = gets (λ s. (list_all limit offset s, count_products s))
