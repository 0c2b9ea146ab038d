-- ===== src/Catalog/Reads.antt =====
-- The reads of backend/app/domain/catalog/repository.py. The rows of the product table stand in the
-- order of their creation.
use neo_store.Prelude.Int.{ltb_ℤ}
use neo_store.Prelude.Text.{Text, text_eq, text}
use neo_store.Prelude.{
  List, ℕ, Option, Bool, [], ◌∷◌, find, length, none, select, ◌&&◌, some, true, any, if◌then◌else◌,
  false, ◌==◌, take, drop,
}
use neo_store.Catalog.Models.{
  Product, ProductStatus, Translation, Media, published, draft, archived,
}
use neo_store.Prelude.Table
use mathlib.Core.Option

-- The tables of the catalog; a membership is a row of `product_category`, product first.
pub record Catalog : Type 0 where
  pub products : List Product
  pub memberships : List (ℕ × ℕ)
  pub media : List Media

abbrev pub product_key : Product → ℕ
product_key p = p.id

abbrev pub is_published : ProductStatus → Bool
is_published published = true
is_published draft = false
is_published archived = false

abbrev has_slug : Text → Text → Product → Bool
has_slug slug locale p =
    any (λ (t : Translation). text_eq t.slug slug && text_eq t.locale locale) p.translations

-- `CatalogRepository.find_product_id_by_slug`; a slug is unique in its locale
unfoldable pub find_product_id_by_slug : Catalog → Text → Text → Option ℕ
find_product_id_by_slug c slug locale =
    Option.map product_key (find (has_slug slug locale) c.products)

-- `CatalogRepository.get`
unfoldable pub find_product : Catalog → ℕ → Option Product
find_product c id = Table.get product_key id c.products

abbrev pub in_category : Catalog → Option ℕ → Product → Bool
in_category c none p = true
in_category c (some category) p =
    any (λ (m : ℕ × ℕ). (m.0 == p.id) && (m.1 == category)) c.memberships

-- Puts a row before the later ones of its position, as `created_at` falls.
unfoldable pub insert_product : Product → List Product → List Product
insert_product p [] = p ∷ []
insert_product p (q ∷ qs) =
    if ltb_ℤ q.position p.position then q ∷ insert_product p qs else p ∷ q ∷ qs

-- `ORDER BY position, created_at DESC`: rows are put in from the oldest to the newest.
unfoldable pub order_products : List Product → List Product → List Product
unfolding insert_product
order_products sorted [] = sorted
order_products sorted (p ∷ ps) = order_products (insert_product p sorted) ps

abbrev pub published_in : Catalog → Option ℕ → List Product
published_in c category =
    select (λ (p : Product). is_published p.status && in_category c category p) c.products

-- `CatalogRepository.list_published`
unfoldable pub list_published : Catalog → ℕ → ℕ → Option ℕ → List Product
unfolding order_products
list_published c limit offset category =
    take limit (drop offset (order_products [] (published_in c category)))

-- `CatalogRepository.count_published`
unfoldable pub count_published : Catalog → Option ℕ → ℕ
count_published c category = length (published_in c category)

insert_media : Media → List Media → List Media
insert_media m [] = m ∷ []
insert_media m (n ∷ ns) = if ltb_ℤ n.position m.position then n ∷ insert_media m ns else m ∷ n ∷ ns

order_media : List Media → List Media
unfolding insert_media
order_media [] = []
order_media (m ∷ ms) = insert_media m (order_media ms)

-- `CatalogRepository.media_for`, the group of one product
unfoldable pub media_for : Catalog → ℕ → List Media
unfolding order_media
media_for c id =
    order_media
      (select (λ (m : Media). text_eq m.owner_type (text "product") && (m.owner_id == id)) c.media)
