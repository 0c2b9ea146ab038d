-- ===== src/Catalog/Store.antt =====
-- The tables that backend/app/domain/catalog/admin_service.py writes, and the payload of a
-- translation, which products and categories share.
use neo_store.Cart.{Cart}
use neo_store.Inventory.{Stock}
use neo_store.Catalog.Models.{Product, Category, Media}
use neo_store.Prelude.Text.{Text}
use neo_store.Prelude.{ℕ, List, Option, some, none}

-- The tables that the edits write.
pub record Store : Type 0 where
  pub products : List Product
  pub memberships : List (ℕ × ℕ)
  pub categories : List Category
  pub media : List Media
  pub stock : Stock
  pub carts : List Cart

-- The fields of one locale in a payload: an entry is none where its key is absent, and the last
-- three may be null.
pub record TranslationFields : Type 0 where
  pub name : Option Text
  pub slug : Option Text
  pub description : Option (Option Text)
  pub seo_title : Option (Option Text)
  pub seo_description : Option (Option Text)

abbrev pub get_or {ℓ} : {A : Type ℓ} → A → Option A → A
get_or d none = d
get_or d (some a) = a
