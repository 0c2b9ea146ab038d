-- ===== src/Http/Effects/Dashboard.antt =====
-- What the requests of the dashboard on currencies and on the catalog do to the shop's books: they
-- leave orders and reservations alone.
use neo_store.Order.Units.{reserved_units}
use neo_store.Catalog.Reads.{product_key}
use neo_store.Catalog.Categories.{create_category, put_category, upsert_category_translations}
use neo_store.Http.Sessions.{SameTables, uncommitted_same, then_read_same}
use neo_store.Catalog.NewProduct.{ProductWrite, variants_or_default, create_product}
use neo_store.Catalog.Admin.{
  ProductPatch, get_product, owned, set_variant_price, update_product, delete_product,
}
use neo_store.Decimal.{Decimal}
use neo_store.Http.Products.{
  patch_product, post_category, post_product, put_variant_price, remove_product, update_category,
  find_and_read, read_product,
}
use neo_store.Catalog.Models.{Product}
use neo_store.Catalog.Stocked.{
  StockKept, IsStockable, StockKept-refl, same-StockKept, create_product-StockKept,
  set_variant_price-stock, update_product-stock, upsert_category_translations-stock,
  delete_product-StockKept,
}
use neo_store.Catalog.Store.{Store, TranslationFields, get_or}
use neo_store.Currency.{CurrencyTables, refresh_rates, fetch}
use neo_store.Http.Dashboard.{
  override_exchange_rate, refresh_exchange_rates, write_rate, validate_rate,
}
use neo_store.Prelude.Int.{pos}
use neo_store.Http.Books.{
  Untouched, same-Untouched, admin_write-Untouched, on_store-Untouched, then_read-Untouched,
}
use neo_store.Prelude.Text.{Text, text, upper}
use neo_store.Exec.{Exec, ◌>>=◌, pure, bind-pure_state, bind-lift_state}
use neo_store.Http.Schemas.{ExchangeRateOverride, serialize}
use neo_store.Http.{Call, Database, on_currencies, store_of, on_store, uncommitted, admin_write}
use neo_store.Prelude.{ℕ, All, Option, List, ◌≡◌, true, subst, sym, refl, some, []}
use neo_store.Prelude.Table

module _ (call : Call) (d : Database) where
  currency_work :
      {A B : Type 0} (m : Exec CurrencyTables A) (view : A → B)
      → Untouched d.shop ((on_currencies m >>= λ a. pure (view a)) d).1.shop
  currency_work m view =
      subst (λ (e : Database). Untouched d.shop e.shop)
        (sym (bind-pure_state (on_currencies m) view d)) (same-Untouched d.shop d.shop refl refl)

  store_work :
      {A B : Type 0} (m : Exec Store A) (view : A → B)
      → StockKept d.shop.stock (m (store_of d)).1.stock
      → Untouched d.shop ((on_store m >>= λ a. pure (view a)) d).1.shop
  store_work m view k =
      subst (λ (e : Database). Untouched d.shop e.shop) (sym (bind-pure_state (on_store m) view d))
        (on_store-Untouched m d k)

  pub refresh-Untouched :
      (base : Text) → Untouched d.shop (refresh_exchange_rates call base d).1.shop
  unfolding refresh_exchange_rates
  refresh-Untouched base = admin_write-Untouched call _ d λ admin.
      currency_work (refresh_rates base (text "open-exchange-rate") call.now (fetch call.rates))
        (λ updated. record { updated = updated; base = upper base })

  pub override-Untouched :
      (payload : ExchangeRateOverride)
      → Untouched d.shop (override_exchange_rate call payload d).1.shop
  unfolding override_exchange_rate
  override-Untouched payload =
      let m = admin_write call λ admin. on_currencies (write_rate call payload) in
      subst (λ (e : Database). Untouched d.shop e.shop)
        (sym (bind-lift_state m (validate_rate call) d))
        (admin_write-Untouched call _ d λ admin. same-Untouched d.shop d.shop refl refl)

  pub post_category-Untouched :
      (translations : List (Text × TranslationFields)) (parent_id : Option ℕ)
      → Untouched d.shop (post_category call translations parent_id d).1.shop
  unfolding post_category create_category put_category
  post_category-Untouched translations parent_id = admin_write-Untouched call _ d λ admin.
      store_work (create_category call.uuid_text call.category_id translations parent_id) serialize
        (StockKept-refl d.shop.stock)

  pub update_category-Untouched :
      (id : ℕ) (translations : Option (List (Text × TranslationFields)))
      → Untouched d.shop (update_category call id translations d).1.shop
  unfolding update_category
  update_category-Untouched id translations = admin_write-Untouched call _ d λ admin.
      store_work (upsert_category_translations id (get_or [] translations)) serialize (
        same-StockKept _ _
          (upsert_category_translations-stock id (get_or [] translations) (store_of d)))

  read_product_same : (p : Product) (e : Database) → SameTables e (read_product p e).1
  read_product_same p e = uncommitted_same _ e

  find_and_read_same : (id : ℕ) (e : Database) → SameTables e (find_and_read id e).1
  find_and_read_same id e =
      then_read_same (uncommitted (on_store (get_product id))) read_product e read_product_same
        (uncommitted_same (on_store (get_product id)) e)

  pub post_product-Untouched :
      (payload : ProductWrite)
      → All IsStockable (variants_or_default payload.variants)
      → Untouched d.shop (post_product call payload d).1.shop
  unfolding post_product
  post_product-Untouched payload stockable =
      then_read-Untouched
        (admin_write call (λ admin. on_store (create_product call.new_ids payload))) read_product d
        read_product_same
        (admin_write-Untouched call _ d λ admin.
          on_store-Untouched (create_product call.new_ids payload) d
            (create_product-StockKept call.new_ids payload (store_of d) stockable))

  pub patch_product-Untouched :
      (id : ℕ) (payload : ProductPatch) → Untouched d.shop (patch_product call id payload d).1.shop
  unfolding patch_product
  patch_product-Untouched id payload =
      then_read-Untouched (admin_write call (λ admin. on_store (update_product id payload)))
        read_product d read_product_same
        (admin_write-Untouched call _ d λ admin.
          on_store-Untouched (update_product id payload) d
            (same-StockKept _ _ (update_product-stock id payload (store_of d))))

  pub put_variant_price-Untouched :
      (id v : ℕ) (code : Text) (amount : Decimal)
      → Untouched d.shop (put_variant_price call id v code amount d).1.shop
  unfolding put_variant_price
  put_variant_price-Untouched id v code amount =
      then_read-Untouched (admin_write call (λ admin. on_store (set_variant_price v code amount)))
        (λ priced. find_and_read id) d (λ priced. find_and_read_same id)
        (admin_write-Untouched call _ d λ admin.
          on_store-Untouched (set_variant_price v code amount) d
            (same-StockKept _ _ (set_variant_price-stock v code amount (store_of d))))

  pub remove_product-Untouched :
      (id : ℕ)
      → ((p : Product)
          → Table.get product_key id d.products ≡ some p
          → (v : ℕ) → owned p.variants v ≡ true
          → reserved_units v d.shop.stock ≡ pos 0)
      → Untouched d.shop (remove_product call id d).1.shop
  unfolding remove_product
  remove_product-Untouched id free = admin_write-Untouched call _ d λ admin.
      on_store-Untouched (delete_product id) d (delete_product-StockKept id (store_of d) free)
