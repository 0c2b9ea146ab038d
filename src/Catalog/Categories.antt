-- ===== src/Catalog/Categories.antt =====
-- backend/app/domain/catalog: the categories, their reads in repository.py and their edits in
-- admin_service.py. `uuid_text` is `str` of a UUID.
use neo_store.Errors.{coded_error, not_found, category_not_found}
use neo_store.Catalog.Admin.{new_translation}
use neo_store.Prelude.Int.{pos, ltb_ℤ}
use neo_store.Exec.{◌>>=◌, ◌>>◌, Exec, or_raise, gets, modify, pure}
use neo_store.Prelude.Text.{Text, text, text_eq, text_lt}
use neo_store.Catalog.Store.{Store, TranslationFields, get_or}
use neo_store.Catalog.Models.{Category, Translation}
use neo_store.Prelude.Table
use neo_store.Prelude.{
  ℕ, List, Option, ◌∷◌, Bool, find, [], if◌then◌else◌, ◌++◌, any, map, true, some, none, ◌&&◌,
  false, sort_by,
}

abbrev pub category_key : Category → ℕ
category_key c = c.id

-- Does `a` stand before `b` by `ORDER BY position, path`?
unfoldable pub stands_before : Category → Category → Bool
stands_before a b =
    if ltb_ℤ a.position b.position
    then true
    else if ltb_ℤ b.position a.position
    then false
    else text_lt a.path b.path

-- `CatalogRepository.list_categories`, which `CatalogAdminService.list_categories` passes on
unfoldable pub list_categories : Store → List Category
list_categories s = sort_by stands_before s.categories

-- `CatalogRepository.get_category`
unfoldable pub get_category : ℕ → Store → Option Category
get_category id s = Table.get category_key id s.categories

-- `CatalogRepository.category_by_slug`; a slug is unique in its locale
unfoldable pub category_by_slug : Text → Text → List Category → Option Category
category_by_slug slug locale categories =
    find
      (λ (c : Category).
        any (λ (t : Translation). text_eq t.slug slug && text_eq t.locale locale) c.translations)
      categories

unfoldable pub put_category : Category → Store → Store
put_category c s = record s { categories = Table.put category_key c s.categories }

-- `f"/{category.id}/"` or `f"/{parent_id}/{category.id}/"`
unfoldable pub category_path : (ℕ → Text) → ℕ → Option ℕ → Text
category_path uuid_text id none = text "/" ++ (uuid_text id ++ text "/")
category_path uuid_text id (some parent_id) =
    text "/" ++ (uuid_text parent_id ++ (text "/" ++ (uuid_text id ++ text "/")))

-- The rows of the translations of a new category, in the order of the payload.
unfoldable pub category_rows : List (Text × TranslationFields) → List Translation
category_rows fields = map (λ (f : Text × TranslationFields). new_translation f.0 f.1) fields

-- `CatalogAdminService.create_category`
unfoldable pub create_category :
    (ℕ → Text) → ℕ → List (Text × TranslationFields) → Option ℕ → Exec Store Category
create_category uuid_text id translations parent_id = do
  let category : Category = record {
    id = id;
    parent_id = parent_id;
    path = category_path uuid_text id parent_id;
    position = pos 0;
    translations = category_rows translations;
  }
  modify (put_category category)
  pure category

-- One round of the loop of `upsert_category_translations`, which leaves the fields for search
-- engines alone.
unfoldable pub upsert_fields : Text → TranslationFields → List Translation → List Translation
upsert_fields locale f [] =
    record (new_translation locale f) { seo_title = none; seo_description = none } ∷ []
upsert_fields locale f (t ∷ ts) =
    let rest = upsert_fields locale f ts in
    if text_eq t.locale locale
    then record t {
      name = get_or t.name f.name;
      slug = get_or t.slug f.slug;
      description = get_or t.description f.description;
    }
      ∷ ts
    else t ∷ rest

unfoldable pub upsert_translations :
    List (Text × TranslationFields) → List Translation → List Translation
upsert_translations [] rows = rows
upsert_translations ((locale, f) ∷ rest) rows =
    upsert_translations rest (upsert_fields locale f rows)

-- `CatalogAdminService.upsert_category_translations`
unfoldable pub upsert_category_translations :
    ℕ → List (Text × TranslationFields) → Exec Store Category
upsert_category_translations id translations = do
  category ← or_raise (← gets (get_category id)) (coded_error not_found category_not_found)
  let updated = record category {
    translations = upsert_translations translations category.translations;
  }
  modify (put_category updated)
  pure updated
