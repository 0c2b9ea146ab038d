-- ===== src/Order/Trade.antt =====
-- The requests that change the shop, each in a transaction of its own, in any order, and what they
-- keep: backend/app/api/v1/checkout.py, orders.py, admin/orders.py and admin/inventory.py over the
-- order and the inventory service.
use neo_store.Order.Moves.{pay-MovedAs, transition_outcome}
use neo_store.Inventory.Lookup.{stock_laws, get_item_key}
use neo_store.Prelude.Text.{Text}
use neo_store.Order.Status.{paid, OrderStatus}
use neo_store.Order.Models.{Order}
use neo_store.Prelude.Int.{pos, ℤ, int_laws}
use neo_store.Inventory.Bounds.{IsBounded, adjust-IsBounded, ensure_item-IsBounded}
use neo_store.Prelude.{◌≡◌, ℕ, ◌∙◌, none, refl, Option, Option-cases, ap, inl, arith, inr}
use neo_store.Order.Accounts.{IsBalanced, MovedAs-IsBalanced, place_order-IsBalanced}
use neo_store.Order.Units.{reserved_units}
use neo_store.Order.Service.{checkout, pay, Request, transition, find_replay}
use neo_store.Exec.{transaction, Exec}
use neo_store.Result.{Result, ok, err}
use neo_store.Inventory.{ensure_item, adjust, Stock}
use neo_store.Order.Shop.{Shop, Env, Draws, order_key, on_stock, undone}
use neo_store.Prelude.Table

-- One request. The database draws an order's id that no order has yet.
pub data Step : Shop → Shop → Type 0 where
  checks_out :
      (env : Env) (draws : Draws) (request : Request) {s t : Shop}
      → Table.get order_key draws.order_id s.orders ≡ none
      → t ≡ (transaction undone (checkout env draws request) s).1
      → Step s t
  pays :
      (env : Env) (ref provider_code : Text) {s t : Shop}
      → t ≡ (transaction undone (pay env ref provider_code) s).1
      → Step s t
  moves :
      (env : Env) (ref : Text) (target : OrderStatus) (remark : Option Text) {s t : Shop}
      → t ≡ (transaction undone (transition env ref target remark) s).1
      → Step s t
  adjusts :
      (v : ℕ) (d : ℤ) (reason : Text) (remark : Option Text) {s t : Shop}
      → t ≡ (transaction undone (on_stock (adjust v d reason remark)) s).1
      → Step s t
  stocks :
      (v quantity : ℕ) {s t : Shop}
      → t ≡ (transaction undone (on_stock (ensure_item v (pos quantity))) s).1
      → Step s t

-- Requests one after the other.
pub data Trading : Shop → Shop → Type 0 where
  idle : {s : Shop} → Trading s s
  next : {s t u : Shop} → Trading s t → Step t u → Trading s u

undone-IsBalanced : (s t : Shop) → IsBalanced s → IsBalanced (undone s t)
undone-IsBalanced s t b = record {
  keyed = b.keyed;
  sound = b.sound;
  bounded = b.bounded;
  balanced = b.balanced;
}

from_outcome :
    {A : Type 0} (r : Result A × Shop) (s : Shop)
    → IsBalanced s
    → ((a : A) (t : Shop) → r ≡ (ok a, t) → IsBalanced t)
    → IsBalanced
        (elim r.0 as (λ x. Result A × Shop) [
          | ok a ↦ (ok a, r.1)
          | err e ↦ (err e, undone s r.1)
        ]).1
from_outcome (ok a, t) s b h = h a t refl
from_outcome (err e, t) s b h = undone-IsBalanced s t b

-- A transaction that keeps the books where it succeeds keeps them.
transaction-IsBalanced :
    {A : Type 0} (m : Exec Shop A) (s : Shop)
    → IsBalanced s
    → ((a : A) (t : Shop) → m s ≡ (ok a, t) → IsBalanced t)
    → IsBalanced (transaction undone m s).1
unfolding transaction
transaction-IsBalanced m s b h = from_outcome (m s) s b h

checkout-IsBalanced :
    (env : Env) (draws : Draws) (request : Request) (o : Order) (s t : Shop)
    → Table.get order_key draws.order_id s.orders ≡ none
    → IsBalanced s
    → checkout env draws request s ≡ (ok o, t)
    → IsBalanced t
unfolding checkout
checkout-IsBalanced env draws request o s t fresh b h =
    elim (Option-cases (find_replay request.idempotency_key s)) [
      | inl e ↦ place_order-IsBalanced env draws request o s t fresh b (ground arith)
      | inr (p, e) ↦ let e' : s ≡ t = ground arith in rw (← e') b
    ]

adjust_reserved :
    (v k : ℕ) (d : ℤ) (reason : Text) (remark : Option Text) (s : Stock)
    → reserved_units k (adjust v d reason remark s).1 ≡ reserved_units k s
unfolding adjust ensure_item reserved_units
adjust_reserved v k d reason remark s = grind (int_laws, stock_laws, get_item_key v s)

ensure_item_reserved :
    (v k q : ℕ) (s : Stock) → reserved_units k (ensure_item v (pos q) s).1 ≡ reserved_units k s
unfolding ensure_item reserved_units
ensure_item_reserved v k q s = grind (int_laws, stock_laws, get_item_key v s)

-- A change of the stock alone that reserves and frees nothing.
stock-IsBalanced :
    (s : Shop) (stock : Stock)
    → IsBalanced s
    → IsBounded stock
    → ((k : ℕ) → reserved_units k stock ≡ reserved_units k s.stock)
    → IsBalanced (record s { stock = stock })
stock-IsBalanced s stock b bounded e = record {
  keyed = b.keyed;
  sound = b.sound;
  bounded = bounded;
  balanced = λ v. e v ∙ b.balanced v;
}

pub step-IsBalanced : {s t : Shop} → Step s t → IsBalanced s → IsBalanced t
step-IsBalanced {s} (checks_out env draws request fresh e) b = rw e (
    transaction-IsBalanced (checkout env draws request) s b
      λ o t h. checkout-IsBalanced env draws request o s t fresh b h)
step-IsBalanced {s} (pays env ref provider_code e) b = rw e (
    transaction-IsBalanced (pay env ref provider_code) s b
      λ o t h. MovedAs-IsBalanced env ref paid o s t b (pay-MovedAs env ref provider_code o s t h))
step-IsBalanced {s} (moves env ref target remark e) b = rw e (
    transaction-IsBalanced (transition env ref target remark) s b λ o t h.
      MovedAs-IsBalanced env ref target o s t b (transition_outcome env ref target remark o s t h))
step-IsBalanced {s} (adjusts v d reason remark e) b = rw e (
    transaction-IsBalanced (on_stock (adjust v d reason remark)) s b λ o t h.
      rw (← ap (λ r. r.1) h) (
        stock-IsBalanced s _ b (adjust-IsBounded v d reason remark s.stock b.bounded)
          (λ k. adjust_reserved v k d reason remark s.stock)))
step-IsBalanced {s} (stocks v q e) b = rw e (
    transaction-IsBalanced (on_stock (ensure_item v (pos q))) s b λ o t h. rw (← ap (λ r. r.1) h) (
      stock-IsBalanced s _ b (ensure_item-IsBounded v q s.stock b.bounded)
        (λ k. ensure_item_reserved v k q s.stock)))

-- However the requests of customers and administrators follow each other, each in a transaction
-- that commits or rolls back, the books of the shop stay balanced: the units reserved of a variant
-- are those in the orders that await payment, and every row has 0 ≤ reserved ≤ quantity.
pub trade-IsBalanced : {s t : Shop} → Trading s t → IsBalanced s → IsBalanced t
trade-IsBalanced idle b = b
trade-IsBalanced (next ss st) b = step-IsBalanced st (trade-IsBalanced ss b)
