-- ===== src/Order/Replay.antt =====
-- A checkout that is sent again under its idempotency key
-- (backend/app/domain/order/service.py, `checkout`).
use neo_store.Cart.Access.{find_cart-put_cart, get_by_token_spent, put_cart-Keyed}
use neo_store.Errors.{plain_error, cart_expired}
use neo_store.Cart.{cart_key, get_by_token, find_cart, Cart, put_cart}
use neo_store.Order.Outcome.{place_order_outcome, placed_rows, PlacedAs, spent}
use neo_store.Result.{ok, err}
use neo_store.Prelude.{
  is_empty, ◌≡◌, none, false, some, refl, find, Option-cases, inr, true, arith, find-append_none,
  inl, ◌∷◌, [], sym, ◌∙◌,
}
use neo_store.Order.Models.{Order}
use neo_store.Prelude.Text.{Text, text_eq_refl}
use neo_store.Order.Shop.{get_by_idempotency_key, Env, Draws, Shop, order_key, has_key}
use neo_store.Order.Service.{find_replay, checkout, Request, place_order}
use neo_store.Prelude.Table

find_replay-some :
    (key : Text) (s : Shop)
    → is_empty key ≡ false
    → find_replay (some key) s ≡ get_by_idempotency_key key s
unfolding find_replay
find_replay-some key s e = rw e refl

-- A key that no order has finds, after the write of an order with a new id, that order.
replay-put :
    (key : Text) (o : Order) (s : Shop)
    → Table.get order_key o.id s.orders ≡ none
    → o.idempotency_key ≡ some key
    → get_by_idempotency_key key s ≡ none
    → find (λ x. has_key key x.idempotency_key) (Table.put order_key o s.orders) ≡ some o
unfolding get_by_idempotency_key
replay-put key o s fresh k h =
    let e : has_key key o.idempotency_key ≡ true = rw k (text_eq_refl key) in
    rw
      (
        Table.put_fresh order_key o s.orders fresh,
        find-append_none (λ (x : Order). has_key key x.idempotency_key) s.orders (o ∷ []) h,
        e,
      )
      refl

keyed_rows :
    (key : Text) (s : Shop)
    → get_by_idempotency_key key s ≡ find (λ x. has_key key x.idempotency_key) s.orders
unfolding get_by_idempotency_key
keyed_rows key s = refl

replays :
    (again : Env) (redrawn : Draws) (repeated : Request) (o : Order) (t : Shop)
    → find_replay repeated.idempotency_key t ≡ some o
    → checkout again redrawn repeated t ≡ (ok o, t)
unfolding checkout
replays again redrawn repeated o t e = ground arith

-- A checkout that succeeded with a key that is not empty, sent again with the same key, whatever
-- else the second request asks for, returns the order of the first and changes nothing: no second
-- order, no second reservation, no second intent. The first order's id must be new.
pub checkout_replay :
    (env again : Env) (draws redrawn : Draws) (request repeated : Request) (key : Text) (o : Order)
    (s t : Shop)
    → is_empty key ≡ false
    → request.idempotency_key ≡ some key
    → repeated.idempotency_key ≡ some key
    → Table.get order_key draws.order_id s.orders ≡ none
    → checkout env draws request s ≡ (ok o, t)
    → checkout again redrawn repeated t ≡ (ok o, t)
checkout_replay env again draws redrawn request repeated key o s t n k k' fresh h =
    replays again redrawn repeated o t
      (elim (Option-cases (find_replay request.idempotency_key s)) [
        | inr (p, e) ↦
            let same : (p ≡ o) × (s ≡ t) = unfold checkout in ground arith in
            cc (k, k', e, same.0, same.1)
        | inl e ↦
            let p = place_order_outcome env draws request o s t (unfold checkout in ground arith) in
            let new : Table.get order_key o.id s.orders ≡ none =
              cc (fresh, p.result, p.priced.id) in
            let own : o.idempotency_key ≡ some key = cc (k, p.result, p.priced.key) in
            let unseen : get_by_idempotency_key key s ≡ none =
              cc (find_replay-some key s n, k, e) in
            cc (
              k',
              find_replay-some key t n,
              keyed_rows key t,
              placed_rows env draws request o s t p,
              replay-put key o s new own unseen,
            )
      ])

spent_cart :
    (env : Env) (draws : Draws) (request : Request) (o : Order) (s t : Shop)
    → Table.Keyed cart_key s.carts
    → (p : PlacedAs env draws request o s t)
    → find_cart request.cart_token t.carts ≡ some (spent request p.cart)
spent_cart env draws request o s t k p =
    let c1 : Cart = record p.cart { email = some request.email } in
    let e1 = find_cart-put_cart request.cart_token p.cart c1 s.carts k p.found refl refl in
    let k1 = put_cart-Keyed c1 s.carts k in
    let c2 = spent request p.cart in
    rw p.carts (find_cart-put_cart request.cart_token c1 c2 (put_cart c1 s.carts) k1 e1 refl refl)

place_order_expired :
    (again : Env) (redrawn : Draws) (repeated : Request) (t : Shop)
    → get_by_token again.shelf.now repeated.cart_token t.carts
      ≡ (err (plain_error cart_expired), t.carts)
    → place_order again redrawn repeated t ≡ (err (plain_error cart_expired), t)
unfolding place_order
place_order_expired again redrawn repeated t e = ground arith

no_replay :
    (again : Env) (redrawn : Draws) (repeated : Request) (t : Shop)
    → find_replay repeated.idempotency_key t ≡ none
    → checkout again redrawn repeated t ≡ place_order again redrawn repeated t
unfolding checkout
no_replay again redrawn repeated t e = ground arith

-- A cart is ordered once: after a checkout that placed an order, every checkout of the same token
-- that is no replay raises `CartExpiredError` and changes nothing. The carts' ids must be distinct.
pub cart_ordered_once :
    (env again : Env) (draws redrawn : Draws) (request repeated : Request) (o : Order) (s t : Shop)
    → Table.Keyed cart_key s.carts
    → find_replay request.idempotency_key s ≡ none
    → checkout env draws request s ≡ (ok o, t)
    → repeated.cart_token ≡ request.cart_token
    → find_replay repeated.idempotency_key t ≡ none
    → checkout again redrawn repeated t ≡ (err (plain_error cart_expired), t)
cart_ordered_once env again draws redrawn request repeated o s t k n h same n' =
    let p =
      place_order_outcome env draws request o s t (sym (no_replay env draws request s n) ∙ h) in
    let e = spent_cart env draws request o s t k p in
    let shut =
      get_by_token_spent again.shelf.now repeated.cart_token t.carts (spent request p.cart)
        (cc (e, same)) refl in
    no_replay again redrawn repeated t n' ∙ place_order_expired again redrawn repeated t shut
