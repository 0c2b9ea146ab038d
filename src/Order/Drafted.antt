-- ===== src/Order/Drafted.antt =====
-- The lines of a drafted order against the lines of its cart
-- (backend/app/domain/order/service.py, `checkout`).
use neo_store.Decimal.{mul, of_int}
use neo_store.Pricing.{unit_price}
use neo_store.Result.{ok, Result-cases, >>=-eq-ok}
use neo_store.Prelude.Int.{pos, ◌≤ℤ◌}
use neo_store.Order.Units.{units, IsPositive}
use neo_store.Cart.Lines.{cart_units}
use neo_store.Order.Models.{OrderLine}
use neo_store.Cart.{CartLine}
use neo_store.Prelude.{
  ℕ, List, ◌≡◌, All, some, Option-cases, ◌∷◌, inl, arith, inr, [], refl, subst, find, ◌==◌,
  find_passes,
}
use neo_store.Prelude.Text.{Text}
use neo_store.Order.Draft.{order_lines, order_line}
use neo_store.Catalog.Models.{find_variant, variant_of, Product, ProductVariant}
use neo_store.Order.Shop.{Env}

variant_of_id :
    (id : ℕ) (p : Product) {a : Product} {v : ProductVariant}
    → variant_of id p ≡ some (a, v)
    → v.id ≡ id
unfolding variant_of
variant_of_id id p h = elim (Option-cases (find (λ (w : ProductVariant). w.id == id) p.variants)) [
  | inl e ↦ absurd (ground arith)
  | inr (w, e) ↦ ground (arith, find_passes (λ (w : ProductVariant). w.id == id) p.variants e)
]

-- The variant that is found has the number that was asked for.
find_variant_id :
    (id : ℕ) (ps : List Product) {a : Product} {v : ProductVariant}
    → find_variant id ps ≡ some (a, v)
    → v.id ≡ id
unfolding find_variant
find_variant_id id [] h = cc
find_variant_id id (p ∷ ps) {a} {v} h = elim (Option-cases (variant_of id p)) [
  | inl e ↦ find_variant_id id ps {a = a} {v = v} (ground arith)
  | inr ((b, w), e) ↦ ground (arith, variant_of_id id p e)
]

-- Where an order line comes from: its cart line, the variant, and the price of the moment.
pub record DraftedFrom (env : Env) (currency : Text) (l : CartLine) (o : OrderLine) : Type 0 where
  pub product : Product
  pub variant : ProductVariant
  pub found : find_variant l.variant_id env.shelf.products ≡ some (product, variant)
  pub variant_id : o.variant_id ≡ some l.variant_id
  pub quantity : o.quantity ≡ l.quantity
  pub sku : o.sku ≡ variant.sku
  pub currency_code : o.currency_code ≡ currency
  pub priced : unit_price env.shelf.currencies (product, variant) currency ≡ ok o.unit_price
  pub line_total : o.line_total ≡ mul o.unit_price (of_int o.quantity)

order_line_outcome :
    (env : Env) (locale currency : Text) (l : CartLine) {o : OrderLine}
    → order_line env locale currency l ≡ ok o
    → DraftedFrom env currency l o
unfolding order_line
order_line_outcome env locale currency l {o} h =
    elim (Option-cases (find_variant l.variant_id env.shelf.products)) [
      | inl e ↦ absurd (ground arith)
      | inr ((p, v), e) ↦ elim (Result-cases (unit_price env.shelf.currencies (p, v) currency)) [
        | inr (x, e') ↦ absurd (ground arith)
        | inl (unit, e') ↦
            let id = find_variant_id l.variant_id env.shelf.products e in
            record {
              product = p;
              variant = v;
              found = e;
              variant_id = ground arith;
              quantity = ground arith;
              sku = ground arith;
              currency_code = ground arith;
              priced = ground arith;
              line_total = ground arith;
            }
      ]
    ]

-- The lines of the order stand to the lines of the cart one by one.
abbrev pub AllDrafted : Env → Text → List CartLine → List OrderLine → Type 0
AllDrafted env currency [] [] = Unit
AllDrafted env currency [] (o ∷ os) = ⊥
AllDrafted env currency (l ∷ ls) [] = ⊥
AllDrafted env currency (l ∷ ls) (o ∷ os) =
    DraftedFrom env currency l o × AllDrafted env currency ls os

pub order_lines_outcome :
    (env : Env) (locale currency : Text) (ls : List CartLine) (os : List OrderLine)
    → order_lines env locale currency ls ≡ ok os
    → AllDrafted env currency ls os
unfolding order_lines
order_lines_outcome env locale currency [] [] h = tt
order_lines_outcome env locale currency [] (o ∷ os) h = absurd (ground arith)
order_lines_outcome env locale currency (l ∷ ls) os h =
    let (first, e, h1) = >>=-eq-ok (order_line env locale currency l) _ h in
    let (rest, e', h2) = >>=-eq-ok (order_lines env locale currency ls) _ h1 in
    subst (AllDrafted env currency (l ∷ ls)) {x = first ∷ rest} (ground arith) (
      order_line_outcome env locale currency l e,
      order_lines_outcome env locale currency ls rest e',
    )

module _ (env : Env) (currency : Text) where
  pub units-AllDrafted :
      (v : ℕ) (ls : List CartLine) (os : List OrderLine)
      → AllDrafted env currency ls os
      → units v os ≡ cart_units v ls
  units-AllDrafted v [] [] h = refl
  units-AllDrafted v [] (o ∷ os) h = absurd h
  units-AllDrafted v (l ∷ ls) [] h = absurd h
  units-AllDrafted v (l ∷ ls) (o ∷ os) h =
      cc (h.0.variant_id, h.0.quantity, units-AllDrafted v ls os h.1)

  pub AllDrafted-IsPositive :
      (ls : List CartLine) (os : List OrderLine)
      → AllDrafted env currency ls os
      → All (λ (l : CartLine). pos 1 ≤ℤ l.quantity) ls
      → All IsPositive os
  AllDrafted-IsPositive [] [] h p = tt
  AllDrafted-IsPositive [] (o ∷ os) h p = absurd h
  AllDrafted-IsPositive (l ∷ ls) [] h p = absurd h
  AllDrafted-IsPositive (l ∷ ls) (o ∷ os) h p =
      (rw h.0.quantity p.0, AllDrafted-IsPositive ls os h.1 p.1)
