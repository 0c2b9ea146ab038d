-- ===== src/Catalog/NewProduct.antt =====
-- `create_product` of backend/app/domain/catalog/admin_service.py, with the payload `ProductWrite` of
-- schemas.py. The ids that the database gives to new rows are arguments.
use neo_store.Errors.{key_error, invalid_operation}
use neo_store.Catalog.Admin.{apply_translations, product_status, add_variant, put_product}
use neo_store.Prelude.Int.{ℤ, pos}
use neo_store.Catalog.Store.{Store, TranslationFields, get_or}
use neo_store.Decimal.{Decimal}
use neo_store.Result.{Result, ok, err}
use neo_store.Exec.{◌>>◌, ◌>>=◌, Exec, pure, lift, modify}
use neo_store.Prelude.Text.{Text, upper, text}
use neo_store.Catalog.Models.{ProductStatus, Product, Media}
use neo_store.Prelude.{
  ℕ, List, Option, none, some, Bool, if◌then◌else◌, [], ◌∷◌, is_empty, ◌+◌, ◌++◌, ◌==◌,
}
use neo_store.Result

-- An entry of `ProductWrite.variants`; an amount is none where `Decimal(str(amount))` raises.
pub record VariantWrite : Type 0 where
  pub sku : Option Text
  pub prices : Option (List (Text × Option Decimal))
  pub quantity : Option ℤ

-- An entry of `ProductWrite.media`.
pub record MediaWrite : Type 0 where
  pub url : Option Text
  pub alt : Option Text
  pub position : Option ℤ
  pub is_primary : Option Bool

pub record ProductWrite : Type 0 where
  pub status : Text
  pub product_type : Text
  pub base_price : Decimal
  pub base_currency : Text
  pub position : ℤ
  pub translations : List (Text × TranslationFields)
  pub variants : List VariantWrite
  pub media : List MediaWrite

-- The ids that the new rows get, a variant's by its index, the first eight digits of the product's,
-- and the decimal digits of a number.
pub record NewIds : Type 0 where
  pub product_id : ℕ
  pub variant_id : ℕ → ℕ
  pub hex_prefix : Text
  pub digits : ℕ → Text

-- `payload.variants or [{"sku": …, "quantity": 0}]`
abbrev pub variants_or_default : List VariantWrite → List VariantWrite
variants_or_default [] = record { sku = none; prices = none; quantity = some (pos 0) } ∷ []
variants_or_default (spec ∷ specs) = spec ∷ specs

-- `{str(code).upper(): Decimal(str(amount)) …}`
unfoldable pub read_prices : List (Text × Option Decimal) → Result (List (Text × Decimal))
read_prices [] = ok []
read_prices ((code, none) ∷ rest) = err invalid_operation
read_prices ((code, some amount) ∷ rest) =
    Result.◌>>=◌ (read_prices rest) λ read. ok ((code, amount) ∷ read)

-- `spec.get("sku") or f"…"`
abbrev pub sku_or : Text → Option Text → Text
sku_or d none = d
sku_or d (some sku) = if is_empty sku then d else sku

-- The loop of `create_product` over its variants, from an index on.
unfoldable pub add_variants : NewIds → ℕ → Product → List VariantWrite → Exec Store Product
add_variants ids index p [] = pure p
add_variants ids index p (spec ∷ specs) = do
  prices ← lift (read_prices (get_or [] spec.prices))
  let sku = sku_or (ids.hex_prefix ++ (text "-" ++ ids.digits (index + 1))) spec.sku
  grown ← add_variant (ids.variant_id index) p sku prices (get_or (pos 0) spec.quantity) (pos index)
  add_variants ids (index + 1) grown specs

-- The loop of `create_product` over its media, from an index on.
unfoldable pub media_rows : ℕ → ℕ → List MediaWrite → Result (List Media)
media_rows id index [] = ok []
media_rows id index (spec ∷ specs) =
    let rest = media_rows id (index + 1) specs in
    elim spec.url [
      | none ↦ err key_error
      | some url ↦ Result.◌>>=◌ rest λ rows. ok (
          record {
            owner_type = text "product";
            owner_id = id;
            url = url;
            alt = spec.alt;
            position = get_or (pos index) spec.position;
            is_primary = get_or (index == 0) spec.is_primary;
          }
          ∷ rows)
    ]

-- The row that `create_product` adds before its variants.
unfoldable pub new_product : ℕ → ProductStatus → ProductWrite → Product
new_product id status payload = record {
  id = id;
  status = status;
  product_type = payload.product_type;
  base_price = payload.base_price;
  base_currency = upper payload.base_currency;
  position = payload.position;
  translations = apply_translations payload.translations [];
  variants = [];
}

-- `CatalogAdminService.create_product`
unfoldable pub create_product : NewIds → ProductWrite → Exec Store Product
create_product ids payload = do
  status ← lift (product_status payload.status)
  let p = new_product ids.product_id status payload
  modify (put_product p)
  grown ← add_variants ids 0 p (variants_or_default payload.variants)
  rows ← lift (media_rows ids.product_id 0 payload.media)
  modify (λ s. record s { media = s.media ++ rows })
  pure grown
