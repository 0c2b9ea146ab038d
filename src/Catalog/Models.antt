-- ===== src/Catalog/Models.antt =====
-- backend/app/domain/catalog/models.py: the rows of the catalog. A product holds its variants and
-- translations, as the relationships load them; the rows' foreign keys are implied by that.
use neo_store.Decimal.{Decimal}
use neo_store.Prelude.Int.{ℤ}
use neo_store.Prelude.Text.{Text}
use mathlib.Core.Option
use neo_store.Prelude.{ℕ, Option, List, none, find, ◌==◌, Bool, ◌∷◌, some, []}

pub data ProductStatus : Type 0 where
  draft published archived : ProductStatus

-- `ProductTranslation` and `CategoryTranslation`, which have the same columns
pub record Translation : Type 0 where
  pub locale : Text
  pub name : Text
  pub slug : Text
  pub description : Option Text
  pub seo_title : Option Text
  pub seo_description : Option Text

pub record VariantPrice : Type 0 where
  pub currency_code : Text
  pub amount : Decimal

pub record OptionValueTranslation : Type 0 where
  pub locale : Text
  pub label : Text

pub record OptionValue : Type 0 where
  pub id : ℕ
  pub code : Text
  pub position : ℤ
  pub translations : List OptionValueTranslation

-- An option value stands for its `VariantOptionValue` link; `none` is a link to no row.
pub record ProductVariant : Type 0 where
  pub id : ℕ
  pub sku : Text
  pub position : ℤ
  pub prices : List VariantPrice
  pub option_values : List (Option OptionValue)

pub record Product : Type 0 where
  pub id : ℕ
  pub status : ProductStatus
  pub product_type : Text
  pub base_price : Decimal
  pub base_currency : Text
  pub position : ℤ
  pub translations : List Translation
  pub variants : List ProductVariant

pub record Category : Type 0 where
  pub id : ℕ
  pub parent_id : Option ℕ
  pub path : Text
  pub position : ℤ
  pub translations : List Translation

pub record Media : Type 0 where
  pub owner_type : Text
  pub owner_id : ℕ
  pub url : Text
  pub alt : Option Text
  pub position : ℤ
  pub is_primary : Bool

unfoldable pub variant_of : ℕ → Product → Option (Product × ProductVariant)
variant_of variant_id p =
    Option.map (λ v. (p, v)) (find (λ (v : ProductVariant). v.id == variant_id) p.variants)

-- `session.get(ProductVariant, variant_id)`, with the variant's `product`
unfoldable pub find_variant : ℕ → List Product → Option (Product × ProductVariant)
unfolding variant_of
find_variant variant_id [] = none
find_variant variant_id (p ∷ ps) = elim (variant_of variant_id p) [
  | some found ↦ some found
  | none ↦ find_variant variant_id ps
]
