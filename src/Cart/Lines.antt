-- ===== src/Cart/Lines.antt =====
-- What adding and changing a line does to a cart's lines (backend/app/domain/cart/service.py).
use neo_store.Pricing.{unit_price}
use neo_store.Catalog.Models.{find_variant}
use neo_store.Result.{ok, Result-cases}
use neo_store.Prelude.Text.{Text}
use neo_store.Decimal.{Decimal}
use neo_store.Prelude.Int.{
  ℤ, pos, ◌+ℤ◌, int_laws, ◌≤ℤ◌, +ℤ_assoc, add-swap, add-right_comm, add-zero,
}
use neo_store.Prelude.{
  ℕ, Option, List, ◌≡◌, ◌++◌, ◌∷◌, some, ◌∙◌, [], if◌then◌else◌, ap, Option-cases, Bool-cases, ◌==◌,
  ltb, inl, sym, refl, none, inr, arith, length,
}
use neo_store.Cart.{
  find_line, sort_lines, lines_with, add_line, insert_line, get_by_token, raise_line, CartLine,
  Shelf, Cart, find_cart, put_cart, refresh,
}

-- The units that a line gives to the variant.
abbrev pub units_of : ℕ → Option ℕ → ℤ → ℤ
units_of v none q = pos 0
units_of v (some k) q = if k == v then q else pos 0

-- The units of a variant in a cart's lines.
abbrev pub cart_units : ℕ → List CartLine → ℤ
cart_units v [] = pos 0
cart_units v (l ∷ ls) = units_of v (some l.variant_id) l.quantity +ℤ cart_units v ls

insert_line_units :
    (v : ℕ) (l : CartLine) (ms : List CartLine)
    → cart_units v (insert_line l ms) ≡ units_of v (some l.variant_id) l.quantity +ℤ cart_units v ms
unfolding insert_line
insert_line_units v l [] = refl
insert_line_units v l (m ∷ ms) = elim (Bool-cases (ltb m.position l.position)) [
  | inr e ↦ rw e refl
  | inl e ↦
      rw (e, insert_line_units v l ms)
        (add-swap (units_of v (some m.variant_id) m.quantity)
          (units_of v (some l.variant_id) l.quantity) (cart_units v ms))
]

sort_lines_units : (v : ℕ) (ls : List CartLine) → cart_units v (sort_lines ls) ≡ cart_units v ls
unfolding sort_lines
sort_lines_units v [] = refl
sort_lines_units v (l ∷ ls) =
    insert_line_units v l (sort_lines ls)
    ∙ ap (◌+ℤ◌ (units_of v (some l.variant_id) l.quantity)) (sort_lines_units v ls)

raise_units :
    (v j k : ℕ) (a q : ℤ)
    → j ≡ k
    → units_of v (some j) (a +ℤ q) ≡ units_of v (some j) a +ℤ units_of v (some k) q
raise_units v j k a q e = ground (arith, add-zero (pos 0))

raise_line_units :
    (v k : ℕ) (q : ℤ) (p : Decimal) (ls : List CartLine) {l : CartLine}
    → find_line k ls ≡ some l
    → cart_units v (raise_line k q p ls) ≡ cart_units v ls +ℤ units_of v (some k) q
unfolding find_line raise_line
raise_line_units v k q p [] h = cc
raise_line_units v k q p (m ∷ ms) {l} h = elim (Bool-cases (m.variant_id == k)) [
  | inl e ↦ rw e (
      cc (
        raise_units v m.variant_id k m.quantity q (ground arith),
        add-right_comm (units_of v (some m.variant_id) m.quantity) (units_of v (some k) q)
            (cart_units v ms),
      ))
  | inr e ↦ rw (e, raise_line_units v k q p ms {l = l} (ground arith)) (sym (+ℤ_assoc _ _ _))
]

append_units :
    (v : ℕ) (ls : List CartLine) (l : CartLine)
    → cart_units v (ls ++ l ∷ []) ≡ cart_units v ls +ℤ units_of v (some l.variant_id) l.quantity
append_units v [] l = omega int_laws
append_units v (m ∷ ms) l = rw (append_units v ms l) (sym (+ℤ_assoc _ _ _))

pub lines_with_new :
    (id k : ℕ) (q : ℤ) (p : Decimal) (cur : Text) (ls : List CartLine)
    → find_line k ls ≡ none
    → lines_with id k q p cur ls
      ≡ ls
        ++ record {
          id = id;
          variant_id = k;
          quantity = q;
          unit_price = p;
          currency_code = cur;
          position = length ls;
        }
          ∷ []
unfolding lines_with
lines_with_new id k q p cur ls e = ground arith

pub lines_with_old :
    (id k : ℕ) (q : ℤ) (p : Decimal) (cur : Text) (ls : List CartLine) {l : CartLine}
    → find_line k ls ≡ some l
    → lines_with id k q p cur ls ≡ raise_line k q p ls
unfolding lines_with
lines_with_old id k q p cur ls e = ground arith

lines_with_units :
    (v id k : ℕ) (q : ℤ) (p : Decimal) (cur : Text) (ls : List CartLine)
    → cart_units v (lines_with id k q p cur ls) ≡ cart_units v ls +ℤ units_of v (some k) q
lines_with_units v id k q p cur ls = elim (Option-cases (find_line k ls)) [
  | inl e ↦ ap (cart_units v) (lines_with_new id k q p cur ls e) ∙ append_units v ls _
  | inr (l, e) ↦
      ap (cart_units v) (lines_with_old id k q p cur ls e) ∙ raise_line_units v k q p ls e
]

refresh_units : (v : ℕ) (c : Cart) → cart_units v (refresh c).lines ≡ cart_units v c.lines
unfolding refresh
refresh_units v c = sort_lines_units v c.lines

-- The cart and the price that a successful call worked with.
pub add_line_steps :
    (shelf : Shelf) (id : ℕ) (token : Text) (k : ℕ) (q : ℤ) (s t : List Cart) (c : Cart)
    → add_line shelf id token k q s ≡ (ok c, t)
    → (old : Cart) × (p : Decimal) × (find_cart token s ≡ some old)
      × (pos 1 ≤ℤ q)
      × (c ≡ refresh (record old { lines = lines_with id k q p old.currency_code old.lines }))
      × (t ≡ put_cart c s)
unfolding add_line get_by_token
add_line_steps shelf id token k q s t c h = elim (Option-cases (find_cart token s)) [
  | inl e ↦ absurd (ground arith)
  | inr (old, e) ↦ elim (Option-cases (find_variant k shelf.products)) [
    | inl e' ↦ absurd (ground arith)
    | inr (found, e') ↦ elim (Result-cases (unit_price shelf.currencies found old.currency_code)) [
      | inr (x, e2) ↦ absurd (ground arith)
      | inl (p, e2) ↦ (old, p, e, ground arith, ground arith, ground arith)
    ]
  ]
]

-- Adding to a cart raises the units of the variant in it by the quantity, which is positive, and
-- keeps those of every other variant, whether the variant was in the cart or not; and the cart is
-- written.
pub add_line_units :
    (shelf : Shelf) (id : ℕ) (token : Text) (k : ℕ) (q : ℤ) (s t : List Cart) (c : Cart)
    → add_line shelf id token k q s ≡ (ok c, t)
    → (old : Cart) × (find_cart token s ≡ some old)
      × (pos 1 ≤ℤ q)
      × ((v : ℕ) → cart_units v c.lines ≡ cart_units v old.lines +ℤ units_of v (some k) q)
      × (t ≡ put_cart c s)
add_line_units shelf id token k q s t c h =
    let (old, p, e, n, made, put) = add_line_steps shelf id token k q s t c h in
    let new : Cart = record old { lines = lines_with id k q p old.currency_code old.lines } in
    (
      old,
      e,
      n,
      λ v. cc (made, refresh_units v new, lines_with_units v id k q p old.currency_code old.lines),
      put,
    )
