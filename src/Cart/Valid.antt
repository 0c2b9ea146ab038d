-- ===== src/Cart/Valid.antt =====
-- Every cart lists each variant at most once and no line without units
-- (backend/app/domain/cart/service.py).
use neo_store.Result.{ok}
use neo_store.Prelude.Text.{Text, text_eq}
use neo_store.Cart.Lines.{lines_with_new, lines_with_old, add_line_steps}
use neo_store.Decimal.{Decimal}
use neo_store.Prelude.Int.{ℤ, pos, ◌≤ℤ◌, int_laws, leb_ℤ}
use neo_store.Cart.{
  Cart, CartLine, change_line, find_line, insert_line, raise_line, refresh, sort_lines, lines_with,
  Shelf, find_cart, put_cart, update_line, cart_key, get_by_token, add_line,
}
use neo_store.Prelude.{
  ℕ, List, ◌++◌, All, ◌≡◌, ◌≤◌, ◌∷◌, Bool-cases, [], arith, if◌then◌else◌, none, ◌==◌, ltb, refl,
  ◌+◌, Option-cases, inl, inr, subst, ==_iff, some,
}
use neo_store.Prelude.Table

-- The number of lines with a variant.
abbrev pub line_count : ℕ → List CartLine → ℕ
line_count v [] = 0
line_count v (l ∷ ls) = (if l.variant_id == v then 1 else 0) + line_count v ls

abbrev HasUnits : CartLine → Type 0
HasUnits l = pos 1 ≤ℤ l.quantity

pub record IsValid (cart : Cart) : Type 0 where
  pub once : (v : ℕ) → line_count v cart.lines ≤ 1
  pub filled : All HasUnits cart.lines

insert_line_count :
    (v : ℕ) (l : CartLine) (ms : List CartLine)
    → line_count v (insert_line l ms) ≡ line_count v (l ∷ ms)
unfolding insert_line
insert_line_count v l [] = refl
insert_line_count v l (m ∷ ms) = let ih = insert_line_count v l ms in ground arith

sort_lines_count : (v : ℕ) (ls : List CartLine) → line_count v (sort_lines ls) ≡ line_count v ls
unfolding sort_lines
sort_lines_count v [] = refl
sort_lines_count v (l ∷ ls) =
    omega (arith, insert_line_count v l (sort_lines ls), sort_lines_count v ls)

insert_line-HasUnits :
    (l : CartLine) (ms : List CartLine)
    → HasUnits l
    → All HasUnits ms
    → All HasUnits (insert_line l ms)
unfolding insert_line
insert_line-HasUnits l [] h a = (h, tt)
insert_line-HasUnits l (m ∷ ms) h a = elim (Bool-cases (ltb m.position l.position)) [
  | inl e ↦ rw e (a.0, insert_line-HasUnits l ms h a.1)
  | inr e ↦ rw e (h, a)
]

sort_lines-HasUnits : (ls : List CartLine) → All HasUnits ls → All HasUnits (sort_lines ls)
unfolding sort_lines
sort_lines-HasUnits [] a = tt
sort_lines-HasUnits (l ∷ ls) a =
    insert_line-HasUnits l (sort_lines ls) a.0 (sort_lines-HasUnits ls a.1)

refresh-IsValid : (c : Cart) → IsValid c → IsValid (refresh c)
unfolding refresh
refresh-IsValid c h = record {
  once = λ v. rw (sort_lines_count v c.lines) (h.once v);
  filled = sort_lines-HasUnits c.lines h.filled;
}

-- A variant that is not in the cart stands in no line.
find_line-none_count : (k : ℕ) (ls : List CartLine) → find_line k ls ≡ none → line_count k ls ≡ 0
unfolding find_line
find_line-none_count k [] h = refl
find_line-none_count k (l ∷ ls) h = let ih = find_line-none_count k ls in ground arith

append_count :
    (v : ℕ) (ls : List CartLine) (l : CartLine)
    → line_count v (ls ++ l ∷ []) ≡ line_count v (l ∷ ls)
append_count v [] l = refl
append_count v (m ∷ ms) l = omega (arith, append_count v ms l)

append-HasUnits :
    (ls : List CartLine) (l : CartLine) → All HasUnits ls → HasUnits l → All HasUnits (ls ++ l ∷ [])
append-HasUnits [] l a h = (h, tt)
append-HasUnits (m ∷ ms) l a h = (a.0, append-HasUnits ms l a.1 h)

raise_line_count :
    (v k : ℕ) (q : ℤ) (p : Decimal) (ls : List CartLine)
    → line_count v (raise_line k q p ls) ≡ line_count v ls
unfolding raise_line
raise_line_count v k q p [] = refl
raise_line_count v k q p (l ∷ ls) = let ih = raise_line_count v k q p ls in ground arith

raise_line-HasUnits :
    (k : ℕ) (q : ℤ) (p : Decimal) (ls : List CartLine)
    → pos 1 ≤ℤ q
    → All HasUnits ls
    → All HasUnits (raise_line k q p ls)
unfolding raise_line
raise_line-HasUnits k q p [] h a = tt
raise_line-HasUnits k q p (l ∷ ls) h a = elim (Bool-cases (l.variant_id == k)) [
  | inl e ↦ rw e (let n = a.0 in omega int_laws, a.1)
  | inr e ↦ rw e (a.0, raise_line-HasUnits k q p ls h a.1)
]

lines_with-IsValid :
    (id k : ℕ) (q : ℤ) (p : Decimal) (c : Cart)
    → pos 1 ≤ℤ q
    → IsValid c
    → IsValid (record c { lines = lines_with id k q p c.currency_code c.lines })
lines_with-IsValid id k q p c h valid = elim (Option-cases (find_line k c.lines)) [
  | inl e ↦ rw (lines_with_new id k q p c.currency_code c.lines e) (record {
    once = λ v.
        let n = valid.once v in
        let z = find_line-none_count k c.lines e in
        rw (append_count v c.lines _) (elim (Bool-cases (k == v)) [
          | inl same ↦
              let none_there : line_count v c.lines ≡ 0 =
                subst (λ j. line_count j c.lines ≡ 0) ((==_iff k v).0 same) z in
              ground arith
          | inr other ↦ ground arith
        ]);
    filled = append-HasUnits c.lines _ valid.filled h;
  })
  | inr (l, e) ↦ rw (lines_with_old id k q p c.currency_code c.lines e) (record {
    once = λ v. rw (raise_line_count v k q p c.lines) (valid.once v);
    filled = raise_line-HasUnits k q p c.lines h valid.filled;
  })
]

change_line_count :
    (v id : ℕ) (q : ℤ) (ls : List CartLine) → line_count v (change_line id q ls) ≤ line_count v ls
unfolding change_line
change_line_count v id q [] = omega arith
change_line_count v id q (l ∷ ls) = let ih = change_line_count v id q ls in ground arith

change_line-HasUnits :
    (id : ℕ) (q : ℤ) (ls : List CartLine) → All HasUnits ls → All HasUnits (change_line id q ls)
unfolding change_line
change_line-HasUnits id q [] a = tt
change_line-HasUnits id q (l ∷ ls) a = elim (Bool-cases (l.id == id)) [
  | inr e ↦ rw e (a.0, change_line-HasUnits id q ls a.1)
  | inl e ↦ elim (Bool-cases (leb_ℤ q (pos 0))) [
    | inl n ↦ rw (e, n) a.1
    | inr n ↦ rw (e, n) (ground arith, a.1)
  ]
]

pub find_cart-IsValid :
    (token : Text) (s : List Cart) {c : Cart}
    → All IsValid s
    → find_cart token s ≡ some c
    → IsValid c
unfolding find_cart
find_cart-IsValid token [] a h = cc
find_cart-IsValid token (d ∷ ds) {c} a h = elim (Bool-cases (text_eq d.token token)) [
  | inl e ↦ subst IsValid (ground arith) a.0
  | inr e ↦ find_cart-IsValid token ds {c = c} a.1 (ground arith)
]

pub put_cart-IsValid :
    (c : Cart) (s : List Cart) → IsValid c → All IsValid s → All IsValid (put_cart c s)
unfolding put_cart
put_cart-IsValid c s valid a = Table.put-All cart_key IsValid c s valid a

pub add_line-IsValid :
    (shelf : Shelf) (id : ℕ) (token : Text) (k : ℕ) (q : ℤ) (s t : List Cart) (c : Cart)
    → All IsValid s
    → add_line shelf id token k q s ≡ (ok c, t)
    → All IsValid t
add_line-IsValid shelf id token k q s t c a h =
    let (old, p, found, positive, e, e') = add_line_steps shelf id token k q s t c h in
    let valid = lines_with-IsValid id k q p old positive (find_cart-IsValid token s a found) in
    rw (e', e) (put_cart-IsValid _ s (refresh-IsValid _ valid) a)

-- The cart that a successful call worked with.
update_line_steps :
    (now : ℕ) (token : Text) (id : ℕ) (q : ℤ) (s t : List Cart) (c : Cart)
    → update_line now token id q s ≡ (ok c, t)
    → (old : Cart) × (find_cart token s ≡ some old)
      × (t ≡ put_cart (refresh (record old { lines = change_line id q old.lines })) s)
unfolding update_line get_by_token
update_line_steps now token id q s t c h = elim (Option-cases (find_cart token s)) [
  | inl e ↦ absurd (ground arith)
  | inr (old, e) ↦ (old, e, ground arith)
]

pub update_line-IsValid :
    (now : ℕ) (token : Text) (id : ℕ) (q : ℤ) (s t : List Cart) (c : Cart)
    → All IsValid s
    → update_line now token id q s ≡ (ok c, t)
    → All IsValid t
update_line-IsValid now token id q s t c a h =
    let (old, found, e) = update_line_steps now token id q s t c h in
    let valid = find_cart-IsValid token s a found in
    rw e (
      put_cart-IsValid _ s
        (refresh-IsValid _ (record {
          once = λ v.
              let n = valid.once v in let m = change_line_count v id q old.lines in omega arith;
          filled = change_line-HasUnits id q old.lines valid.filled;
        }))
        a)
