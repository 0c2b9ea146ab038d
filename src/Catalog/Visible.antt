-- ===== src/Catalog/Visible.antt =====
-- Customers see published products only (backend/app/domain/catalog/service.py and repository.py).
use neo_store.Currency.{convert}
use neo_store.Locale.{resolve_locale}
use neo_store.Result.{ok, >>=-eq-ok}
use neo_store.Prelude.Int.{ltb_ℤ}
use neo_store.Region.{Region}
use neo_store.Prelude.Text.{Text}
use neo_store.Prelude.{
  Option, ℕ, ◌≡◌, List, true, All, [], arith, suc, select, ◌∷◌, ◌&&◌, Bool-cases, zero, false, inl,
  inr, some, ◌∙◌, none, map, take, drop,
}
use neo_store.Catalog.Storefront.{
  to_detail, get_product_by_slug, Views, ProductDetail, currency_for, show_product, variant_views,
  least_or, VariantView,
}
use neo_store.Catalog.Reads.{
  Catalog, list_published, insert_product, order_products, is_published, published_in, in_category,
}
use neo_store.Catalog.Models.{Product, ProductStatus, published}

abbrev pub Published : Product → Type 0
Published p = p.status ≡ published

is_published-eq : (s : ProductStatus) → is_published s ≡ true → s ≡ published
is_published-eq s h = ground arith

select-Published :
    (c : Catalog) (category : Option ℕ) (ps : List Product)
    → All Published (select (λ (p : Product). is_published p.status && in_category c category p) ps)
select-Published c category [] = tt
select-Published c category (p ∷ ps) =
    elim (Bool-cases (is_published p.status && in_category c category p)) [
      | inl e ↦ rw e (is_published-eq p.status (ground arith), select-Published c category ps)
      | inr e ↦ rw e (select-Published c category ps)
    ]

insert_product-All :
    (p : Product) (qs : List Product)
    → Published p
    → All Published qs
    → All Published (insert_product p qs)
unfolding insert_product
insert_product-All p [] h a = (h, tt)
insert_product-All p (q ∷ qs) h a = elim (Bool-cases (ltb_ℤ q.position p.position)) [
  | inl e ↦ rw e (a.0, insert_product-All p qs h a.1)
  | inr e ↦ rw e (h, a)
]

order_products-All :
    (sorted ps : List Product)
    → All Published sorted
    → All Published ps
    → All Published (order_products sorted ps)
unfolding order_products
order_products-All sorted [] s a = s
order_products-All sorted (p ∷ ps) s a =
    order_products-All (insert_product p sorted) ps (insert_product-All p sorted a.0 s) a.1

drop-All : (n : ℕ) (ps : List Product) → All Published ps → All Published (drop n ps)
drop-All zero ps a = a
drop-All (suc n) [] a = tt
drop-All (suc n) (p ∷ ps) a = drop-All n ps a.1

take-All : (n : ℕ) (ps : List Product) → All Published ps → All Published (take n ps)
take-All zero ps a = tt
take-All (suc n) [] a = tt
take-All (suc n) (p ∷ ps) a = (a.0, take-All n ps a.1)

-- However it is filtered and paged, the listing holds published products only.
pub list_published-All :
    (c : Catalog) (limit offset : ℕ) (category : Option ℕ)
    → All Published (list_published c limit offset category)
unfolding list_published
list_published-All c limit offset category = take-All limit _ (
    drop-All offset _
      (order_products-All [] (published_in c category) tt (select-Published c category c.products)))

to_detail_status :
    (w : Views) (p : Product) (locale : Text) (region : Option Region) (cur : Option Text)
    {d : ProductDetail}
    → to_detail w p locale region cur ≡ ok d
    → d.status ≡ p.status
unfolding to_detail
to_detail_status w p locale region cur {d} h =
    let currency : Text = currency_for w.configured_currency region cur in
    let (variants, e, h1) = >>=-eq-ok (variant_views w p locale currency p.variants) _ h in
    let (cheapest, e', h2) =
      >>=-eq-ok
        (least_or (convert w.currencies p.base_price p.base_currency currency)
          (map (λ (v : VariantView). v.price) variants))
        _ h1 in
    ground arith

shown_status :
    (w : Views) (locale : Text) (region : Option Region) (cur : Option Text)
    (found : Option Product) {d : ProductDetail}
    → show_product w locale region cur false found ≡ ok d
    → d.status ≡ published
unfolding show_product
shown_status w locale region cur none h = absurd (ground arith)
shown_status w locale region cur (some p) {d} h = elim (Bool-cases (is_published p.status)) [
  | inl e ↦
      let shown : to_detail w p locale region cur ≡ ok d = ground arith in
      to_detail_status w p locale region cur shown ∙ is_published-eq p.status e
  | inr e ↦ absurd (ground arith)
]

-- A product page that a customer gets is of a published product.
pub get_product_by_slug_published :
    (w : Views) (slug : Text) (locale : Option Text) (region : Option Region) (cur : Option Text)
    {d : ProductDetail}
    → get_product_by_slug w slug locale region cur false ≡ ok d
    → d.status ≡ published
unfolding get_product_by_slug
get_product_by_slug_published w slug locale region cur h =
    shown_status w (resolve_locale w.configured_locale w.locales locale) region cur _ h
