-- ===== src/Http/Products.antt =====
-- The routes of backend/app/api/v1/admin/products.py and categories.py, which all ask for an
-- administrator first.
use neo_store.Http.Storefront.{valid_page}
use neo_store.Catalog.Categories.{create_category, upsert_category_translations, list_categories}
use neo_store.Http.Schemas.{CategoryRead, serialize}
use neo_store.Catalog.AdminViews.{AdminProductListPage, AdminProductRead, to_admin_read}
use neo_store.Catalog.Store.{TranslationFields, get_or}
use neo_store.Decimal.{Decimal}
use neo_store.Prelude.Int.{ℤ, pos, to_nat}
use neo_store.Prelude.Text.{Text}
use neo_store.Catalog.NewProduct.{ProductWrite, create_product}
use neo_store.Catalog.Admin.{
  ProductPatch, delete_product, get_product, set_variant_price, update_product, list_products,
}
use neo_store.Catalog.Models.{Product}
use neo_store.Exec.{Exec, gets, ◌>>=◌, ◌>>◌, pure}
use neo_store.Http.{
  Call, Database, uncommitted, on_store, store_of, validate, admin_read, admin_write,
}
use neo_store.Prelude.{ℕ, List, Option, map, []}

-- What the dashboard shows of a product.
abbrev show_product : Product → Exec Database AdminProductRead
show_product p = gets (λ d. to_admin_read p (store_of d))

-- The answer that is made after the commit.
abbrev pub read_product : Product → Exec Database AdminProductRead
read_product p = uncommitted (show_product p)

-- `await catalog.to_admin_read(await catalog.get_product(product_id))`, after the commit
abbrev pub find_and_read : ℕ → Exec Database AdminProductRead
find_and_read product_id = do
  product ← uncommitted (on_store (get_product product_id))
  read_product product

module _ (call : Call) where
  -- `list_products` of admin/products.py
  unfoldable pub browse_catalog : ℤ → ℤ → Exec Database AdminProductListPage
  browse_catalog limit offset = admin_read call λ admin. do
    validate (valid_page (pos 200) limit offset)
    (products, total) ← on_store (list_products (to_nat limit) (to_nat offset))
    items ← gets (λ d. map (λ p. to_admin_read p (store_of d)) products)
    pure (record { items = items; total = total; limit = to_nat limit; offset = to_nat offset })

  -- `create_product` of admin/products.py
  unfoldable pub post_product : ProductWrite → Exec Database AdminProductRead
  post_product payload = do
    product ← admin_write call (λ admin. on_store (create_product call.new_ids payload))
    read_product product

  -- `get_product` of admin/products.py
  unfoldable pub inspect_product : ℕ → Exec Database AdminProductRead
  inspect_product product_id =
      admin_read call λ admin. do product ← on_store (get_product product_id); show_product product

  -- `update_product` of admin/products.py
  unfoldable pub patch_product : ℕ → ProductPatch → Exec Database AdminProductRead
  patch_product product_id payload = do
    product ← admin_write call (λ admin. on_store (update_product product_id payload))
    read_product product

  -- `delete_product` of admin/products.py
  unfoldable pub remove_product : ℕ → Exec Database (Unit {0})
  remove_product product_id = admin_write call λ admin. on_store (delete_product product_id)

  -- `set_variant_price` of admin/products.py: the price is committed before the product is looked up.
  unfoldable pub put_variant_price : ℕ → ℕ → Text → Decimal → Exec Database AdminProductRead
  put_variant_price product_id variant_id currency_code amount = do
    admin_write call (λ admin. on_store (set_variant_price variant_id currency_code amount))
    find_and_read product_id

  -- `list_categories` of admin/categories.py
  unfoldable pub browse_categories : Exec Database (List CategoryRead)
  browse_categories =
      admin_read call λ admin. gets (λ d. map serialize (list_categories (store_of d)))

  -- `create_category` of admin/categories.py
  unfoldable pub post_category :
      List (Text × TranslationFields) → Option ℕ → Exec Database CategoryRead
  post_category translations parent_id = admin_write call λ admin. do
    category ← on_store (create_category call.uuid_text call.category_id translations parent_id)
    pure (serialize category)

  -- `update_category` of admin/categories.py
  unfoldable pub update_category :
      ℕ → Option (List (Text × TranslationFields)) → Exec Database CategoryRead
  update_category category_id translations = admin_write call λ admin. do
    category ← on_store (upsert_category_translations category_id (get_or [] translations))
    pure (serialize category)
