-- ===== src/Catalog/Stocked.antt =====
-- What the edits of the catalog do to the stock: a new product brings rows that hold no reservation,
-- a deleted one takes its rows along, and no other edit touches the stock
-- (backend/app/domain/catalog/admin_service.py with backend/app/domain/inventory/service.py).
use neo_store.Decimal.{Decimal}
use neo_store.Catalog.Reads.{product_key}
use neo_store.Prelude.Text.{Text, text}
use neo_store.Catalog.Categories.{upsert_category_translations, put_category}
use neo_store.Result.{Result-cases, ok}
use neo_store.Inventory.Lookup.{stock_laws, get_item_key}
use neo_store.Catalog.Store.{get_or, Store, TranslationFields}
use neo_store.Catalog.Models.{Product, ProductStatus}
use neo_store.Order.Units.{reserved_units}
use neo_store.Catalog.Admin.{
  add_variant, delete_product, get_product, put_product, set_variant_price, update_product,
  ProductPatch, owned, status_or, grown_by, product_status, cascade,
}
use neo_store.Inventory.Bounds.{IsBounded, ensure_item-IsBounded}
use neo_store.Prelude.Int.{ℤ, pos, int_laws, ◌≤ℤ◌, negsuc}
use neo_store.Catalog.NewProduct.{
  VariantWrite, add_variants, NewIds, read_prices, create_product, sku_or, ProductWrite,
  variants_or_default, new_product, media_rows,
}
use neo_store.Inventory.{Stock, ensure_item, InventoryItem, item_key, get_item}
use neo_store.Prelude.{
  ℕ, ◌∙◌, ◌≡◌, refl, subst, sym, List, All, ◌∷◌, [], inr, arith, inl, Bool, ◌++◌, Option-cases,
  select, some, ◌+◌, if◌then◌else◌, none, true, ==_iff, not, Bool-cases,
}
use neo_store.Prelude.Table

-- The second stock is as safe as the first, and reserves the same units.
pub record StockKept (s t : Stock) : Type 0 where
  pub bounded : IsBounded s → IsBounded t
  pub reserved : (k : ℕ) → reserved_units k t ≡ reserved_units k s

pub StockKept-refl : (s : Stock) → StockKept s s
StockKept-refl s = record { bounded = λ b. b; reserved = λ k. refl }

pub StockKept-trans : (s t u : Stock) → StockKept s t → StockKept t u → StockKept s u
StockKept-trans s t u a b = record {
  bounded = λ h. b.bounded (a.bounded h);
  reserved = λ k. b.reserved k ∙ a.reserved k;
}

pub same-StockKept : (s t : Stock) → t ≡ s → StockKept s t
same-StockKept s t e = subst (StockKept s) (sym e) (StockKept-refl s)

ensure_item_reserved :
    (v k : ℕ) (q : ℤ) (s : Stock) → reserved_units k (ensure_item v q s).1 ≡ reserved_units k s
unfolding ensure_item reserved_units
ensure_item_reserved v k q s = grind (int_laws, stock_laws, get_item_key v s)

-- A new row of a quantity that is not negative.
pub ensure_item-StockKept :
    (v : ℕ) (q : ℤ) (s : Stock) → pos 0 ≤ℤ q → StockKept s (ensure_item v q s).1
ensure_item-StockKept v (pos n) s h = record {
  bounded = ensure_item-IsBounded v n s;
  reserved = λ k. ensure_item_reserved v k (pos n) s;
}
ensure_item-StockKept v (negsuc n) s h = absurd (omega int_laws)

-- The quantity that a new variant is stocked with is not negative.
abbrev pub IsStockable : VariantWrite → Type 0
IsStockable spec = pos 0 ≤ℤ get_or (pos 0) spec.quantity

ensure_item_ok : (v : ℕ) (q : ℤ) (s : Stock) → (i : InventoryItem) × ((ensure_item v q s).0 ≡ ok i)
unfolding ensure_item
ensure_item_ok v q s = elim (Option-cases (get_item v s)) [
  | inl e ↦ (record { variant_id = v; quantity = q; reserved = pos 0 }, ground arith)
  | inr (i, e) ↦ (i, ground arith)
]

-- What is left of a store when a variant is added, with its row in the stock.
abbrev with_variant : ℕ → Product → ℤ → Store → Store
with_variant id grown q s = record (put_product grown s) { stock = (ensure_item id q s.stock).1 }

add_variant_ok :
    (id : ℕ) (p : Product) (sku : Text) (prices : List (Text × Decimal)) (q position : ℤ)
    (s : Store)
    → add_variant id p sku prices q position s ≡ (
      ok (grown_by id sku position prices p),
      with_variant id (grown_by id sku position prices p) q s,
    )
unfolding add_variant put_product
add_variant_ok id p sku prices q position s =
    let (i, e) = ensure_item_ok id q s.stock in ground arith

add_variants-step :
    (ids : NewIds) (index : ℕ) (p : Product) (spec : VariantWrite) (specs : List VariantWrite)
    (s : Store) {prices : List (Text × Decimal)} {grown : Product} {t : Store}
    → read_prices (get_or [] spec.prices) ≡ ok prices
    → add_variant
        (ids.variant_id index)
        p
        (sku_or (ids.hex_prefix ++ (text "-" ++ ids.digits (index + 1))) spec.sku)
        prices
        (get_or (pos 0) spec.quantity)
        (pos index)
        s
      ≡ (ok grown, t)
    → add_variants ids index p (spec ∷ specs) s ≡ add_variants ids (index + 1) grown specs t
unfolding add_variants
add_variants-step ids index p spec specs s r e = ground arith

add_variants-StockKept :
    (ids : NewIds) (index : ℕ) (p : Product) (specs : List VariantWrite) (s : Store)
    → All IsStockable specs
    → StockKept s.stock (add_variants ids index p specs s).1.stock
add_variants-StockKept ids index p [] s h = unfold add_variants in StockKept-refl s.stock
add_variants-StockKept ids index p (spec ∷ specs) s h =
    elim (Result-cases (read_prices (get_or [] spec.prices))) [
      | inr (e, r) ↦ same-StockKept _ _ (unfold add_variants in ground arith)
      | inl (prices, r) ↦
          let sku = sku_or (ids.hex_prefix ++ (text "-" ++ ids.digits (index + 1))) spec.sku in
          let q = get_or (pos 0) spec.quantity in
          let v = ids.variant_id index in
          let grown = grown_by v sku (pos index) prices p in
          let t = with_variant v grown q s in
          let here = ensure_item-StockKept v q s.stock h.0 in
          let rest = add_variants-StockKept ids (index + 1) grown specs t h.1 in
          let step =
            add_variants-step ids index p spec specs s r
              (add_variant_ok v p sku prices q (pos index) s) in
          rw step (StockKept-trans s.stock t.stock _ here rest)
    ]

-- After the variants, `create_product` adds media alone.
create_product-stock :
    (ids : NewIds) (payload : ProductWrite) (s : Store) {status : ProductStatus}
    → product_status payload.status ≡ ok status
    → (create_product ids payload s).1.stock
      ≡ (add_variants ids 0
          (new_product ids.product_id status payload)
          (variants_or_default payload.variants)
          (put_product (new_product ids.product_id status payload) s)).1.stock
unfolding create_product
create_product-stock ids payload s {status} r =
    let p = new_product ids.product_id status payload in
    elim (Result-cases
      (add_variants ids 0 p (variants_or_default payload.variants) (put_product p s)).0) [
        | inr (x, e) ↦ ground arith
        | inl (grown, e) ↦ elim (Result-cases (media_rows ids.product_id 0 payload.media)) [
          | inl (rows, m) ↦ ground arith
          | inr (x, m) ↦ ground arith
        ]
      ]

-- Creating a product, with quantities that are not negative, keeps the stock.
pub create_product-StockKept :
    (ids : NewIds) (payload : ProductWrite) (s : Store)
    → All IsStockable (variants_or_default payload.variants)
    → StockKept s.stock (create_product ids payload s).1.stock
unfolding put_product
create_product-StockKept ids payload s h = elim (Result-cases (product_status payload.status)) [
  | inr (e, r) ↦ same-StockKept _ _ (unfold create_product in ground arith)
  | inl (status, r) ↦
      let p = new_product ids.product_id status payload in
      rw (create_product-stock ids payload s r)
        (add_variants-StockKept ids 0 p (variants_or_default payload.variants) (put_product p s) h)
]

pub update_product-stock :
    (id : ℕ) (patch : ProductPatch) (s : Store) → (update_product id patch s).1.stock ≡ s.stock
unfolding update_product get_product put_product
update_product-stock id patch s = elim (Option-cases (Table.get product_key id s.products)) [
  | inl e ↦ ground arith
  | inr (p, e) ↦ elim (Result-cases (status_or p.status patch.status)) [
    | inl (status, r) ↦ ground arith
    | inr (x, r) ↦ ground arith
  ]
]

pub set_variant_price-stock :
    (id : ℕ) (code : Text) (amount : Decimal) (s : Store)
    → (set_variant_price id code amount s).1.stock ≡ s.stock
unfolding set_variant_price
set_variant_price-stock id code amount s = ground arith

pub get_product-stock : (id : ℕ) (s : Store) → (get_product id s).1 ≡ s
unfolding get_product
get_product-stock id s = ground arith

pub upsert_category_translations-stock :
    (id : ℕ) (translations : List (Text × TranslationFields)) (s : Store)
    → (upsert_category_translations id translations s).1.stock ≡ s.stock
unfolding upsert_category_translations put_category
upsert_category_translations-stock id translations s = ground arith

-- A row is found under its key where the keys that are let through are.
get-select_key :
    (keep : ℕ → Bool) (k : ℕ) (items : List InventoryItem)
    → Table.get item_key k (select (λ (i : InventoryItem). keep i.variant_id) items)
      ≡ (if keep k then Table.get item_key k items else none)
unfolding Table.get
get-select_key keep k [] = ground arith
get-select_key keep k (i ∷ items) =
    ground (arith, get-select_key keep k items, ==_iff i.variant_id k)

cascade-StockKept :
    (p : Product) (s : Store)
    → ((v : ℕ) → owned p.variants v ≡ true → reserved_units v s.stock ≡ pos 0)
    → StockKept s.stock (cascade p s).stock
unfolding cascade reserved_units get_item
cascade-StockKept p s h =
    let kept = λ (k : ℕ). get-select_key (λ v. not (owned p.variants v)) k s.stock.items in
    record {
      bounded = λ b. record {
        at_key = λ k i g. b.at_key k i (elim (Bool-cases (owned p.variants k)) [
          | inl e ↦ absurd (ground (arith, kept k))
          | inr e ↦ ground (arith, kept k)
        ]);
      };
      reserved = λ k. elim (Bool-cases (owned p.variants k)) [
        | inl e ↦ let none_held = h k e in ground (arith, kept k)
        | inr e ↦ ground (arith, kept k)
      ];
    }

delete_product-stock :
    (id : ℕ) (s : Store) {p : Product}
    → Table.get product_key id s.products ≡ some p
    → (delete_product id s).1.stock ≡ (cascade p s).stock
unfolding delete_product get_product cascade
delete_product-stock id s e = ground arith

-- Deleting a product whose variants hold no reservation keeps the stock.
pub delete_product-StockKept :
    (id : ℕ) (s : Store)
    → ((p : Product)
        → Table.get product_key id s.products ≡ some p
        → (v : ℕ) → owned p.variants v ≡ true
        → reserved_units v s.stock ≡ pos 0)
    → StockKept s.stock (delete_product id s).1.stock
delete_product-StockKept id s h = elim (Option-cases (Table.get product_key id s.products)) [
  | inl e ↦ same-StockKept _ _ (unfold delete_product get_product in ground arith)
  | inr (p, e) ↦ rw (delete_product-stock id s e) (cascade-StockKept p s (h p e))
]
