-- ===== src/Order/Service.antt =====
-- backend/app/domain/order/service.py: checkout, payment, and the moves of an order. A method runs
-- in the session of its request; `Exec.transaction` adds the commit or the rollback.
use mathlib.Core.List.{reverse}
use neo_store.Locale.{resolve_locale}
use neo_store.Order.Draft.{order_lines, draft_order, next_number}
use neo_store.Errors.{
  plain_error, coded_error, not_found, payment_failed, cart_empty, order_not_found,
}
use neo_store.Pricing.{calculate}
use neo_store.Region.{resolve_region}
use neo_store.Inventory.{Stock, release, commit_reservation, reserve}
use neo_store.Order.Status.{
  draft, OrderStatus, assert_transition, paid, cancelled, fulfilled, completed, refunded,
  awaiting_payment, same_status, allowed_targets,
}
use neo_store.Result.{Result, ok}
use neo_store.Cart.{Cart, CartLine, get_by_token, line_input, set_email, mark_converted}
use neo_store.Payment.{
  IntentStatus, get_payment_provider, failed, requires_confirmation, create_intent, confirm,
  requires_action, succeeded,
}
use neo_store.Order.Models.{
  Order, OrderEvent, OrderLine, cancel, mark_fulfilled, mark_completed, mark_awaiting_payment,
  refund, mark_paid,
}
use neo_store.Order.Shop.{
  Draws, Env, Shop, on_carts, put_order, get_by_number, find_by_ref, on_stock, on_intents,
  get_by_idempotency_key,
}
use neo_store.Prelude.Text.{Text, text, starts_with, remove_prefix}
use neo_store.Result
use neo_store.Exec.{◌>>=◌, ◌>>◌, Exec, lift, or_raise, modify, pure, raise_if}
use neo_store.Prelude.{
  ℕ, List, Option, Bool, some, if◌then◌else◌, true, none, false, is_empty, ◌∷◌, map, or_else, [],
  not, ◌++◌, length, select, take, drop,
}

-- What a request asks of `checkout`, in the order of its parameters.
pub record Request : Type 0 where
  pub cart_token : Text
  pub email : Text
  pub shipping_address : Text
  pub idempotency_key : Option Text
  pub locale : Option Text
  pub provider_code : Text

abbrev is_failed : IntentStatus → Bool
is_failed failed = true
is_failed requires_confirmation = false
is_failed requires_action = false
is_failed succeeded = false

unfoldable pub reserve_lines : List CartLine → Exec Stock (Unit {0})
reserve_lines [] = pure tt
reserve_lines (l ∷ ls) = let rest = reserve_lines ls in reserve l.variant_id l.quantity >> rest

-- The order that the checkout would make, up to the reservation.
unfoldable pub price_order : Env → Draws → Request → Cart → Shop → Result Order
price_order env draws request cart s =
    Result.◌>>=◌ (resolve_region env.shelf.regions (some cart.region_code)) λ region.
      Result.◌>>=◌
        (calculate env.shelf.currencies env.shelf.products (map line_input cart.lines) region
          cart.currency_code)
        λ breakdown.
          Result.◌>>=◌
            (order_lines env (resolve_locale env.configured_locale env.locales request.locale)
              cart.currency_code cart.lines)
            λ lines. ok (
              draft_order draws (next_number draws s) region cart request.email
                request.shipping_address breakdown request.idempotency_key lines)

-- The end of `checkout`: the order is added, its intent is created, and the cart is spent.
unfoldable pub open_order : Draws → Request → Cart → Order → Exec Shop Order
open_order draws request cart order = do
  modify (put_order order)
  lift (get_payment_provider request.provider_code)
  intent ← on_intents (create_intent draws.intent_hex order.number order.total order.currency_code)
  raise_if (is_failed intent.status) (plain_error payment_failed)
  opened ← lift (mark_awaiting_payment (some (text "intent:" ++ intent.provider_ref)) order)
  modify (put_order opened)
  with_email ← on_carts (set_email cart request.email)
  on_carts (mark_converted with_email)
  pure opened

-- `checkout`, for a request that is no replay
unfoldable pub place_order : Env → Draws → Request → Exec Shop Order
place_order env draws request = do
  cart ← on_carts (get_by_token env.shelf.now request.cart_token)
  raise_if (is_empty cart.lines) (coded_error not_found cart_empty)
  order ← λ s. (price_order env draws request cart s, s)
  on_stock (reserve_lines cart.lines)
  open_order draws request cart order

-- `if idempotency_key: existing = …`
unfoldable pub find_replay : Option Text → Shop → Option Order
find_replay none s = none
find_replay (some key) s = if is_empty key then none else get_by_idempotency_key key s

-- `OrderService.checkout`
unfoldable pub checkout : Env → Draws → Request → Exec Shop Order
checkout env draws request s = elim (find_replay request.idempotency_key s) [
  | some existing ↦ (ok existing, s)
  | none ↦ place_order env draws request s
]

-- `OrderService.get`
unfoldable pub get_order : Text → Exec Shop Order
get_order number s = or_raise (get_by_number number s) (coded_error not_found order_not_found) s

-- `OrderService.get_by_ref`
unfoldable pub get_by_ref : Env → Text → Exec Shop Order
get_by_ref env ref s = or_raise (find_by_ref env ref s) (coded_error not_found order_not_found) s

-- The reference in an event's note, if it records an intent.
abbrev intent_of : Option Text → Option Text
intent_of none = none
intent_of (some remark) =
    if starts_with remark (text "intent:")
    then some (remove_prefix remark (text "intent:"))
    else none

-- The last intent that the events record.
unfoldable pub last_intent : List OrderEvent → Option Text
last_intent [] = none
last_intent (e ∷ es) = or_else (last_intent es) (intent_of e.note)

-- `if line.variant_id is not None: …`
abbrev pub on_variant : Option ℕ → (ℕ → Exec Stock (Unit {0})) → Exec Stock (Unit {0})
on_variant none body = pure tt
on_variant (some variant_id) body = body variant_id

unfoldable pub commit_lines : List OrderLine → Exec Stock (Unit {0})
commit_lines [] = pure tt
commit_lines (l ∷ ls) =
    let rest = commit_lines ls in
    on_variant l.variant_id (λ v. commit_reservation v l.quantity) >> rest

unfoldable pub release_lines : List OrderLine → Exec Stock (Unit {0})
release_lines [] = pure tt
release_lines (l ∷ ls) =
    let rest = release_lines ls in on_variant l.variant_id (λ v. release v l.quantity) >> rest

-- `OrderService.pay`
unfoldable pub pay : Env → Text → Text → Exec Shop Order
pay env ref provider_code = do
  order ← get_by_ref env ref
  lift (get_payment_provider provider_code)
  reference ← or_raise (last_intent order.events) (plain_error payment_failed)
  result ← on_intents (confirm reference)
  raise_if (not result.success) (plain_error payment_failed)
  settled ← lift (mark_paid (some (text "confirmed:" ++ reference)) order)
  modify (put_order settled)
  on_stock (commit_lines settled.lines)
  pure settled

-- A move that changes nothing but the order.
unfoldable pub move_only : (Order → Result Order) → Order → Exec Shop Order
move_only move order = do moved ← lift (move order); modify (put_order moved); pure moved

-- The branches of `transition` on its target, for the order that was found.
unfoldable pub transition_to : Env → Text → OrderStatus → Option Text → Order → Exec Shop Order
transition_to env ref paid remark order = pay env ref (text "mock")
transition_to env ref cancelled remark order = do
  moved ← lift (cancel remark order)
  modify (put_order moved)
  on_stock (release_lines moved.lines)
  pure moved
transition_to env ref fulfilled remark order = move_only (mark_fulfilled remark) order
transition_to env ref completed remark order = move_only (mark_completed remark) order
transition_to env ref refunded remark order = move_only (refund remark) order
transition_to env ref awaiting_payment remark order = move_only (mark_awaiting_payment remark) order
transition_to env ref draft remark order = do
  lift (assert_transition order.status draft)
  pure order

-- `OrderService.transition`
unfoldable pub transition : Env → Text → OrderStatus → Option Text → Exec Shop Order
transition env ref target remark = do
  order ← get_by_ref env ref
  transition_to env ref target remark order

abbrev has_status : Option OrderStatus → Order → Bool
has_status none o = true
has_status (some status) o = same_status o.status status

-- `OrderRepository.list`: the newest first; the rows of the table stand as they were created
unfoldable pub list_rows : Option OrderStatus → ℕ → ℕ → List Order → List Order
list_rows status limit offset orders =
    take limit (drop offset (reverse (select (has_status status) orders)))

-- `OrderRepository.count`
unfoldable pub count_rows : Option OrderStatus → List Order → ℕ
count_rows status orders = length (select (has_status status) orders)

-- `OrderService.list_orders`
unfoldable pub list_orders : Option OrderStatus → ℕ → ℕ → Exec Shop (List Order × ℕ)
list_orders status limit offset s =
    (ok (list_rows status limit offset s.orders, count_rows status s.orders), s)

-- `OrderService.allowed_next_statuses`
abbrev pub allowed_next_statuses : Order → List Text
allowed_next_statuses order = allowed_targets order.status
