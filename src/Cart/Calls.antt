-- ===== src/Cart/Calls.antt =====
-- The calls of the cart service, one after the other (backend/app/domain/cart/service.py).
use neo_store.Result.{ok}
use neo_store.Prelude.Int.{ℤ, pos}
use neo_store.Prelude.Text.{Text}
use neo_store.Cart.Valid.{
  IsValid, put_cart-IsValid, add_line-IsValid, update_line-IsValid, find_cart-IsValid,
}
use neo_store.Cart.{
  create, Cart, set_email, mark_converted, remove_line, Shelf, add_line, update_line, find_cart,
}
use neo_store.Prelude.{List, All, ℕ, ◌≡◌, arith, some}

-- One call that succeeds, whatever its arguments are. The methods that take a cart get one that
-- `get_by_token` found.
pub data Call : List Cart → List Cart → Type 0 where
  creates :
      (id : ℕ) (token : Text) (now day : ℕ) (region_code currency_code : Text) {s t : List Cart}
      → t ≡ (create id token now day region_code currency_code s).1
      → Call s t
  adds :
      (shelf : Shelf) (id : ℕ) (token : Text) (k : ℕ) (q : ℤ) {s t : List Cart} {c : Cart}
      → add_line shelf id token k q s ≡ (ok c, t)
      → Call s t
  updates :
      (now : ℕ) (token : Text) (id : ℕ) (q : ℤ) {s t : List Cart} {c : Cart}
      → update_line now token id q s ≡ (ok c, t)
      → Call s t
  removes :
      (now : ℕ) (token : Text) (id : ℕ) {s t : List Cart} {c : Cart}
      → remove_line now token id s ≡ (ok c, t)
      → Call s t
  addresses :
      (token email : Text) {s t : List Cart} {c : Cart}
      → find_cart token s ≡ some c
      → t ≡ (set_email c email s).1
      → Call s t
  converts :
      (token : Text) {s t : List Cart} {c : Cart}
      → find_cart token s ≡ some c
      → t ≡ (mark_converted c s).1
      → Call s t

-- Calls one after the other.
pub data Calls : List Cart → List Cart → Type 0 where
  idle : {s : List Cart} → Calls s s
  next : {s t u : List Cart} → Calls s t → Call t u → Calls s u

Call-IsValid : {s t : List Cart} → Call s t → All IsValid s → All IsValid t
unfolding create set_email mark_converted remove_line
Call-IsValid (creates id token now day region_code currency_code {s} e) a =
    rw e (put_cart-IsValid _ s (record { once = λ v. omega arith; filled = tt }) a)
Call-IsValid (adds shelf id token k q {s} {t} {c} e) a =
    add_line-IsValid shelf id token k q s t c a e
Call-IsValid (updates now token id q {s} {t} {c} e) a = update_line-IsValid now token id q s t c a e
Call-IsValid (removes now token id {s} {t} {c} e) a =
    update_line-IsValid now token id (pos 0) s t c a e
Call-IsValid (addresses token email {s} {t} {c} e h) a =
    let valid = find_cart-IsValid token s a e in
    rw h (put_cart-IsValid _ s (record { once = valid.once; filled = valid.filled }) a)
Call-IsValid (converts token {s} {t} {c} e h) a =
    let valid = find_cart-IsValid token s a e in
    rw h (put_cart-IsValid _ s (record { once = valid.once; filled = valid.filled }) a)

-- Whatever successful calls of the cart service follow each other, from carts that list each
-- variant at most once and in every line at least one unit, the carts stay so.
pub Calls-IsValid : {s t : List Cart} → Calls s t → All IsValid s → All IsValid t
Calls-IsValid idle a = a
Calls-IsValid (next calls call) a = Call-IsValid call (Calls-IsValid calls a)
