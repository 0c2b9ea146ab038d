-- ===== src/Cart/Access.antt =====
-- Which carts a token opens (backend/app/domain/cart/service.py, `get_by_token`).
use neo_store.Errors.{plain_error, cart_expired}
use neo_store.Result.{ok, err}
use neo_store.Prelude.Text.{Text, text_eq}
use neo_store.Prelude.{
  ℕ, List, ◌≡◌, some, ◌↔◌, false, ◌<◌, arith, Option-cases, inl, inr, find_passes,
}
use neo_store.Cart.{
  get_by_token, is_expired, Cart, find_cart, is_active, active, put_cart, cart_key,
}
use neo_store.Prelude.Table

-- A token opens a cart exactly when the first row with the token is active and expires later than
-- now; opening changes nothing.
pub get_by_token_iff :
    (now : ℕ) (token : Text) (s : List Cart) (c : Cart)
    → (get_by_token now token s ≡ (ok c, s))
      ↔ ((find_cart token s ≡ some c) × (c.status ≡ active) × (now < c.expires_at))
unfolding get_by_token is_expired
get_by_token_iff now token s c = (
  λ h. elim (Option-cases (find_cart token s)) [
    | inl e ↦ absurd (ground arith)
    | inr (d, e) ↦ (ground arith, ground arith, ground arith)
  ],
  λ (e, a, n). ground arith,
)

-- A cart that is not active answers with `CartExpiredError`.
pub get_by_token_spent :
    (now : ℕ) (token : Text) (s : List Cart) (c : Cart)
    → find_cart token s ≡ some c
    → is_active c.status ≡ false
    → get_by_token now token s ≡ (err (plain_error cart_expired), s)
unfolding get_by_token
get_by_token_spent now token s c e a = ground arith

-- A row that replaces the one that a token opens is what the token then names.
pub find_cart-put_cart :
    (token : Text) (c d : Cart) (s : List Cart)
    → Table.Keyed cart_key s
    → find_cart token s ≡ some c
    → d.id ≡ c.id
    → d.token ≡ c.token
    → find_cart token (put_cart d s) ≡ some d
unfolding find_cart put_cart
find_cart-put_cart token c d s k e same_id same_token =
    let test = λ (x : Cart). text_eq x.token token in
    Table.find-put cart_key test c d s k e same_id (rw same_token (find_passes test s e))

pub put_cart-Keyed :
    (d : Cart) (s : List Cart) → Table.Keyed cart_key s → Table.Keyed cart_key (put_cart d s)
unfolding put_cart
put_cart-Keyed d s k = Table.put-Keyed cart_key d s k
