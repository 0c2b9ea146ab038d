-- ===== src/Order/Units.antt =====
-- The units of one variant in a list of lines, and what reserving a cart's lines does to the
-- reserved units of the variant (backend/app/domain/order/service.py, `checkout`).
use neo_store.Cart.Lines.{units_of, cart_units}
use neo_store.Inventory.Bounds.{IsBounded, reserve-IsBounded}
use neo_store.Inventory.Effects.{reserve_iff}
use neo_store.Inventory.Lookup.{stock_laws, get_item_key}
use neo_store.Result.{ok, Result-cases}
use neo_store.Prelude.Int.{ℤ, pos, ◌≤ℤ◌, ◌+ℤ◌, int_laws, add-zero, +ℤ_assoc}
use neo_store.Cart.{CartLine}
use neo_store.Order.Service.{reserve_lines}
use neo_store.Inventory.{reserve, Stock, get_item, InventoryItem}
use neo_store.Order.Models.{OrderLine}
use neo_store.Prelude.{
  ℕ, List, All, ◌∷◌, some, ◌≡◌, arith, [], none, inl, inr, subst, Option, Option-cases, sym, ap,
  refl, ◌∙◌,
}

-- The units of a variant in an order's lines.
abbrev pub units : ℕ → List OrderLine → ℤ
units v [] = pos 0
units v (l ∷ ls) = units_of v l.variant_id l.quantity +ℤ units v ls

-- The reserved units of a variant; one that has no stock row has none.
unfoldable pub reserved_units : ℕ → Stock → ℤ
reserved_units v s = elim (get_item v s) [ none ↦ pos 0 | some item ↦ item.reserved ]

abbrev pub IsPositive : OrderLine → Type 0
IsPositive l = pos 1 ≤ℤ l.quantity

pub units_nonneg : (v : ℕ) (ls : List OrderLine) → All IsPositive ls → pos 0 ≤ℤ units v ls
units_nonneg v [] h = omega arith
units_nonneg v (l ∷ ls) h = grind (int_laws, units_nonneg v ls h.1)

-- Reserving the first of several lines has succeeded, and then reserving the others.
reserve_lines_steps :
    (l : CartLine) (ls : List CartLine) (s : Stock)
    → (reserve_lines (l ∷ ls) s).0 ≡ ok tt
    → ((reserve l.variant_id l.quantity s).0 ≡ ok tt)
      × ((reserve_lines ls (reserve l.variant_id l.quantity s).1).0 ≡ ok tt)
      × ((reserve_lines (l ∷ ls) s).1 ≡ (reserve_lines ls (reserve l.variant_id l.quantity s).1).1)
unfolding reserve_lines
reserve_lines_steps l ls s h = ground arith

module _ (v : ℕ) where
  reserve_units :
      (k : ℕ) (q : ℤ) (s : Stock)
      → (reserve k q s).0 ≡ ok tt
      → reserved_units v (reserve k q s).1 ≡ reserved_units v s +ℤ units_of v (some k) q
  unfolding reserve reserved_units
  reserve_units k q s h = grind (int_laws, stock_laws, get_item_key k s, add-zero)

  -- Reserving a cart's lines raises the reserved units of a variant by its units in the lines.
  pub reserve_lines_units :
      (ls : List CartLine) (s : Stock)
      → (reserve_lines ls s).0 ≡ ok tt
      → reserved_units v (reserve_lines ls s).1 ≡ reserved_units v s +ℤ cart_units v ls
  reserve_lines_units [] s h = unfold reserve_lines in ground (arith, add-zero (reserved_units v s))
  reserve_lines_units (l ∷ ls) s h =
      let (h1, h2, e) = reserve_lines_steps l ls s h in
      let e1 = reserve_units l.variant_id l.quantity s h1 in
      cc (
        reserve_lines_units ls (reserve l.variant_id l.quantity s).1 h2,
        e,
        e1,
        +ℤ_assoc (reserved_units v s) (units_of v (some l.variant_id) l.quantity) (cart_units v ls),
      )

-- The row of a variant with more reserved units, if there is one.
abbrev pub with_reserved : ℤ → Option InventoryItem → Option InventoryItem
with_reserved units none = none
with_reserved units (some item) = some (record item { reserved = item.reserved +ℤ units })

with_reserved-with_reserved :
    (a b : ℤ) (row : Option InventoryItem)
    → with_reserved b (with_reserved a row) ≡ with_reserved (a +ℤ b) row
with_reserved-with_reserved a b none = refl
with_reserved-with_reserved a b (some item) = cc (+ℤ_assoc item.reserved a b)

with_reserved-zero : (row : Option InventoryItem) → with_reserved (pos 0) row ≡ row
with_reserved-zero none = refl
with_reserved-zero (some item) = cc (add-zero item.reserved)

module _ (v : ℕ) where
  reserve_row :
      (k : ℕ) (q : ℤ) (s : Stock)
      → (reserve k q s).0 ≡ ok tt
      → get_item v (reserve k q s).1 ≡ with_reserved (units_of v (some k) q) (get_item v s)
  unfolding reserve
  reserve_row k q s h = elim (Option-cases (get_item v s)) [
    | inl e ↦ rw e (grind (int_laws, stock_laws, get_item_key k s, add-zero))
    | inr (item, e) ↦ grind (int_laws, stock_laws, get_item_key k s, add-zero)
  ]

  -- Reserving a cart's lines raises the reserved units in the row of a variant by its units in the
  -- lines, and changes nothing else in the rows.
  pub reserve_lines_row :
      (ls : List CartLine) (s : Stock)
      → (reserve_lines ls s).0 ≡ ok tt
      → get_item v (reserve_lines ls s).1 ≡ with_reserved (cart_units v ls) (get_item v s)
  reserve_lines_row [] s h = unfold reserve_lines in sym (with_reserved-zero (get_item v s))
  reserve_lines_row (l ∷ ls) s h =
      let (h1, h2, e) = reserve_lines_steps l ls s h in
      ap (get_item v) e
      ∙ reserve_lines_row ls (reserve l.variant_id l.quantity s).1 h2
      ∙ ap (with_reserved (cart_units v ls)) (reserve_row l.variant_id l.quantity s h1)
      ∙ with_reserved-with_reserved (units_of v (some l.variant_id) l.quantity) (cart_units v ls)
          (get_item v s)

-- Only positive quantities are reserved.
pub reserve_lines_positive :
    (ls : List CartLine) (s : Stock)
    → (reserve_lines ls s).0 ≡ ok tt
    → All (λ (l : CartLine). pos 1 ≤ℤ l.quantity) ls
reserve_lines_positive [] s h = tt
reserve_lines_positive (l ∷ ls) s h =
    let (h1, h2, e) = reserve_lines_steps l ls s h in
    (
      ((reserve_iff l.variant_id l.quantity s).0 h1).0,
      reserve_lines_positive ls (reserve l.variant_id l.quantity s).1 h2,
    )

-- Reserving lines keeps the stock within its bounds.
pub reserve_lines-IsBounded :
    (ls : List CartLine) (s : Stock) → IsBounded s → IsBounded (reserve_lines ls s).1
unfolding reserve_lines
reserve_lines-IsBounded [] s b = b
reserve_lines-IsBounded (l ∷ ls) s b =
    let b1 = reserve-IsBounded l.variant_id l.quantity s b in
    elim (Result-cases (reserve l.variant_id l.quantity s).0) [
      | inl (u, e) ↦
          subst IsBounded (ground arith)
            (reserve_lines-IsBounded ls (reserve l.variant_id l.quantity s).1 b1)
      | inr (x, e) ↦ subst IsBounded (ground arith) b1
    ]
