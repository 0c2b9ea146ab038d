-- ===== src/Order/Settling.antt =====
-- What committing or releasing an order's lines does to the stock
-- (backend/app/domain/order/service.py, `pay` and `transition`).
-- Committing or releasing the first of several lines, and then the others.
use neo_store.Inventory.Lookup.{stock_laws, get_item_key}
use neo_store.Result.{ok}
use neo_store.Inventory.Bounds.{IsBounded, commit_reservation-IsBounded, release-IsBounded}
use neo_store.Prelude.Int.{ℤ, max_ℤ, pos, ◌≤ℤ◌, int_laws, ◌-ℤ◌, sub-zero, sub-sub}
use neo_store.Order.Models.{OrderLine}
use neo_store.Order.Units.{reserved_units, IsPositive, units, units_nonneg}
use neo_store.Cart.Lines.{units_of}
use neo_store.Inventory.{commit_reservation, release, Stock, InventoryItem, get_item}
use neo_store.Order.Service.{release_lines, commit_lines, on_variant}
use neo_store.Prelude.{
  ℕ, List, Option, ◌∷◌, ◌≡◌, All, none, arith, some, [], Option-cases, inl, inr,
}

commit_lines_steps :
    (l : OrderLine) (ls : List OrderLine) (s : Stock)
    → (commit_lines (l ∷ ls) s).0 ≡ ok tt
    → let t = (on_variant l.variant_id (λ k. commit_reservation k l.quantity) s).1 in
      ((commit_lines ls t).0 ≡ ok tt) × ((commit_lines (l ∷ ls) s).1 ≡ (commit_lines ls t).1)
unfolding commit_lines
commit_lines_steps l ls s h = ground arith

release_lines_steps :
    (l : OrderLine) (ls : List OrderLine) (s : Stock)
    → (release_lines (l ∷ ls) s).0 ≡ ok tt
    → let t = (on_variant l.variant_id (λ k. release k l.quantity) s).1 in
      ((release_lines ls t).0 ≡ ok tt) × ((release_lines (l ∷ ls) s).1 ≡ (release_lines ls t).1)
unfolding release_lines
release_lines_steps l ls s h = ground arith

module _ (v : ℕ) where
  commit_units :
      (k : ℕ) (q : ℤ) (s : Stock) {item : InventoryItem}
      → pos 1 ≤ℤ q
      → get_item v s ≡ some item
      → units_of v (some k) q ≤ℤ item.reserved
      → item.reserved ≤ℤ item.quantity
      → get_item v (commit_reservation k q s).1
        ≡ some (record item {
          reserved = item.reserved -ℤ units_of v (some k) q;
          quantity = item.quantity -ℤ units_of v (some k) q;
        })
  unfolding commit_reservation max_ℤ
  commit_units k q s p g h b = grind (int_laws, stock_laws, get_item_key k s, sub-zero)

  release_units :
      (k : ℕ) (q : ℤ) (s : Stock) {item : InventoryItem}
      → pos 1 ≤ℤ q
      → get_item v s ≡ some item
      → units_of v (some k) q ≤ℤ item.reserved
      → get_item v (release k q s).1
        ≡ some (record item { reserved = item.reserved -ℤ units_of v (some k) q })
  unfolding release max_ℤ
  release_units k q s p g h = grind (int_laws, stock_laws, get_item_key k s, sub-zero)

  commit_line_units :
      (w : Option ℕ) (q : ℤ) (s : Stock) {item : InventoryItem}
      → pos 1 ≤ℤ q
      → get_item v s ≡ some item
      → units_of v w q ≤ℤ item.reserved
      → item.reserved ≤ℤ item.quantity
      → get_item v (on_variant w (λ k. commit_reservation k q) s).1
        ≡ some (record item {
          reserved = item.reserved -ℤ units_of v w q;
          quantity = item.quantity -ℤ units_of v w q;
        })
  commit_line_units none q s {item} p g h b =
      ground (arith, sub-zero item.reserved, sub-zero item.quantity)
  commit_line_units (some k) q s p g h b = commit_units k q s p g h b

  release_line_units :
      (w : Option ℕ) (q : ℤ) (s : Stock) {item : InventoryItem}
      → pos 1 ≤ℤ q
      → get_item v s ≡ some item
      → units_of v w q ≤ℤ item.reserved
      → get_item v (on_variant w (λ k. release k q) s).1
        ≡ some (record item { reserved = item.reserved -ℤ units_of v w q })
  release_line_units none q s {item} p g h = ground (arith, sub-zero item.reserved)
  release_line_units (some k) q s p g h = release_units k q s p g h

  -- Committing an order's lines takes their units of a variant off its reserved and its physical
  -- stock.
  pub commit_lines_row :
      (ls : List OrderLine) (s : Stock) {item : InventoryItem}
      → All IsPositive ls
      → (commit_lines ls s).0 ≡ ok tt
      → get_item v s ≡ some item
      → units v ls ≤ℤ item.reserved
      → item.reserved ≤ℤ item.quantity
      → get_item v (commit_lines ls s).1
        ≡ some (record item {
          reserved = item.reserved -ℤ units v ls;
          quantity = item.quantity -ℤ units v ls;
        })
  commit_lines_row [] s {item} p h g u b =
      unfold commit_lines in ground (arith, sub-zero item.reserved, sub-zero item.quantity)
  commit_lines_row (l ∷ ls) s {item} p h g u b =
      let n = units_nonneg v ls p.1 in
      let (h2, e) = commit_lines_steps l ls s h in
      let g1 = commit_line_units l.variant_id l.quantity s p.0 g (omega int_laws) b in
      let ih =
        commit_lines_row ls (on_variant l.variant_id (λ k. commit_reservation k l.quantity) s).1 p.1
          h2 g1 (omega int_laws) (omega int_laws) in
      cc (
        ih,
        e,
        sub-sub item.reserved (units_of v l.variant_id l.quantity) (units v ls),
        sub-sub item.quantity (units_of v l.variant_id l.quantity) (units v ls),
      )

  -- Releasing them takes the units off the reserved stock alone.
  pub release_lines_row :
      (ls : List OrderLine) (s : Stock) {item : InventoryItem}
      → All IsPositive ls
      → (release_lines ls s).0 ≡ ok tt
      → get_item v s ≡ some item
      → units v ls ≤ℤ item.reserved
      → get_item v (release_lines ls s).1
        ≡ some (record item { reserved = item.reserved -ℤ units v ls })
  release_lines_row [] s {item} p h g u =
      unfold release_lines in ground (arith, sub-zero item.reserved)
  release_lines_row (l ∷ ls) s {item} p h g u =
      let n = units_nonneg v ls p.1 in
      let (h2, e) = release_lines_steps l ls s h in
      let g1 = release_line_units l.variant_id l.quantity s p.0 g (omega int_laws) in
      let ih =
        release_lines_row ls (on_variant l.variant_id (λ k. release k l.quantity) s).1 p.1 h2 g1
          (omega int_laws) in
      cc (ih, e, sub-sub item.reserved (units_of v l.variant_id l.quantity) (units v ls))

  -- Neither makes a row.
  commit_line_no_row :
      (w : Option ℕ) (q : ℤ) (s : Stock)
      → get_item v s ≡ none
      → get_item v (on_variant w (λ k. commit_reservation k q) s).1 ≡ none
  unfolding commit_reservation
  commit_line_no_row none q s g = g
  commit_line_no_row (some k) q s g = grind (int_laws, stock_laws, get_item_key k s)

  release_line_no_row :
      (w : Option ℕ) (q : ℤ) (s : Stock)
      → get_item v s ≡ none
      → get_item v (on_variant w (λ k. release k q) s).1 ≡ none
  unfolding release
  release_line_no_row none q s g = g
  release_line_no_row (some k) q s g = grind (int_laws, stock_laws, get_item_key k s)

  commit_lines_no_row :
      (ls : List OrderLine) (s : Stock)
      → (commit_lines ls s).0 ≡ ok tt
      → get_item v s ≡ none
      → get_item v (commit_lines ls s).1 ≡ none
  commit_lines_no_row [] s h g = unfold commit_lines in g
  commit_lines_no_row (l ∷ ls) s h g =
      let (h2, e) = commit_lines_steps l ls s h in
      let t = (on_variant l.variant_id (λ k. commit_reservation k l.quantity) s).1 in
      cc (e, commit_lines_no_row ls t h2 (commit_line_no_row l.variant_id l.quantity s g))

  release_lines_no_row :
      (ls : List OrderLine) (s : Stock)
      → (release_lines ls s).0 ≡ ok tt
      → get_item v s ≡ none
      → get_item v (release_lines ls s).1 ≡ none
  release_lines_no_row [] s h g = unfold release_lines in g
  release_lines_no_row (l ∷ ls) s h g =
      let (h2, e) = release_lines_steps l ls s h in
      let t = (on_variant l.variant_id (λ k. release k l.quantity) s).1 in
      cc (e, release_lines_no_row ls t h2 (release_line_no_row l.variant_id l.quantity s g))

  -- Both lower the reserved units of a variant by its units in the lines.
  pub commit_lines-units :
      (ls : List OrderLine) (s : Stock)
      → All IsPositive ls
      → IsBounded s
      → (commit_lines ls s).0 ≡ ok tt
      → units v ls ≤ℤ reserved_units v s
      → reserved_units v (commit_lines ls s).1 ≡ reserved_units v s -ℤ units v ls
  unfolding reserved_units
  commit_lines-units ls s p b h u =
      let n = units_nonneg v ls p in
      elim (Option-cases (get_item v s)) [
        | inl e ↦ grind (int_laws, commit_lines_no_row ls s h e)
        | inr (item, e) ↦
            let c = (b.at_key v item e).reserved_covered in
            let u' : units v ls ≤ℤ item.reserved = ground arith in
            cc (e, commit_lines_row ls s p h e u' c)
      ]

  pub release_lines-units :
      (ls : List OrderLine) (s : Stock)
      → All IsPositive ls
      → (release_lines ls s).0 ≡ ok tt
      → units v ls ≤ℤ reserved_units v s
      → reserved_units v (release_lines ls s).1 ≡ reserved_units v s -ℤ units v ls
  unfolding reserved_units
  release_lines-units ls s p h u =
      let n = units_nonneg v ls p in
      elim (Option-cases (get_item v s)) [
        | inl e ↦ grind (int_laws, release_lines_no_row ls s h e)
        | inr (item, e) ↦
            let u' : units v ls ≤ℤ item.reserved = ground arith in
            cc (e, release_lines_row ls s p h e u')
      ]

-- Both keep the stock within its bounds.
commit_line-IsBounded :
    (w : Option ℕ) (q : ℤ) (s : Stock)
    → IsBounded s
    → IsBounded (on_variant w (λ k. commit_reservation k q) s).1
commit_line-IsBounded none q s b = b
commit_line-IsBounded (some k) q s b = commit_reservation-IsBounded k q s b

release_line-IsBounded :
    (w : Option ℕ) (q : ℤ) (s : Stock)
    → IsBounded s
    → IsBounded (on_variant w (λ k. release k q) s).1
release_line-IsBounded none q s b = b
release_line-IsBounded (some k) q s b = release-IsBounded k q s b

pub commit_lines-IsBounded :
    (ls : List OrderLine) (s : Stock)
    → (commit_lines ls s).0 ≡ ok tt
    → IsBounded s
    → IsBounded (commit_lines ls s).1
commit_lines-IsBounded [] s h b = unfold commit_lines in b
commit_lines-IsBounded (l ∷ ls) s h b =
    let (h2, e) = commit_lines_steps l ls s h in
    let t = (on_variant l.variant_id (λ k. commit_reservation k l.quantity) s).1 in
    rw e (commit_lines-IsBounded ls t h2 (commit_line-IsBounded l.variant_id l.quantity s b))

pub release_lines-IsBounded :
    (ls : List OrderLine) (s : Stock)
    → (release_lines ls s).0 ≡ ok tt
    → IsBounded s
    → IsBounded (release_lines ls s).1
release_lines-IsBounded [] s h b = unfold release_lines in b
release_lines-IsBounded (l ∷ ls) s h b =
    let (h2, e) = release_lines_steps l ls s h in
    let t = (on_variant l.variant_id (λ k. release k l.quantity) s).1 in
    rw e (release_lines-IsBounded ls t h2 (release_line-IsBounded l.variant_id l.quantity s b))
