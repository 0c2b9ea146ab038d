-- ===== src/Tests/Trade.antt =====
-- Witnesses for the life of an order: checkout, replay, payment, and the shop's books.
use neo_store.Order.Payments.{pay_rows}
use neo_store.Order.Units.{units}
use neo_store.Inventory.{get_item}
use neo_store.Prelude.Int.{◌*ℤ◌, pos, ◌-ℤ◌}
use neo_store.Order.Amounts.{total_coeff, place_order_amounts}
use neo_store.Currency.{decimal_places}
use neo_store.Decimal.Laws.{fixed}
use neo_store.Payment.{find_intent}
use neo_store.Order.Progress.{cancel_succeeds, pay_iff}
use neo_store.Order.Models.{Order, OrderLine}
use neo_store.Order.Replay.{checkout_replay, cart_ordered_once}
use neo_store.Errors.{cart_expired, plain_error}
use neo_store.Result.{ok, err}
use neo_store.Prelude.Text.{text, Text}
use neo_store.Order.Status.{paid, cancelled}
use neo_store.Order.Trade.{trade-IsBalanced, Trading, next, idle, checks_out}
use neo_store.Prelude.{none, ◌≡◌, refl, ◌↔◌, some, ◌≢◌, All}
use neo_store.Order.Shop.{get_by_idempotency_key}
use neo_store.Tests.Data.{
  request, env, after, draws, order_number, order, paid_order, shop, cancelled_order, after_cancel,
  after_payment, placed, was_cancelled, was_paid, checked_out, transacted, placed_order_found,
  placed_order_awaits, shop-IsBalanced, currencies, order_size_small, item, held_row,
}
use neo_store.Order.Accounts.{IsBalanced}
use neo_store.Order.Moves.{MovedAs, transition_outcome}
use neo_store.Order.Outcome.{PlacedAs, place_order_outcome}
use neo_store.Order.Service.{Request, find_replay, checkout, pay, transition, last_intent}
use neo_store.Prelude.Table

one_checkout : Trading shop after
unfolding Table.get
one_checkout = next idle (checks_out env draws request refl transacted)

after-IsBalanced : IsBalanced after
after-IsBalanced = trade-IsBalanced one_checkout shop-IsBalanced

checkout_replay_example : checkout env draws request after ≡ (ok order, after)
unfolding Table.get
checkout_replay_example =
    checkout_replay env env draws draws request request (text "k1") order shop after refl refl refl
      refl checked_out

-- The same cart again, under another key.
abbrev second : Request
second = record request { idempotency_key = none }

cart_ordered_once_example :
    checkout env draws second after ≡ (err (plain_error cart_expired), after)
unfolding find_replay get_by_idempotency_key Table.get
cart_ordered_once_example =
    cart_ordered_once env env draws draws request second order shop after (refl, tt) refl
      checked_out refl refl

place_order_outcome_example : PlacedAs env draws request order shop after
place_order_outcome_example = place_order_outcome env draws request order shop after placed

pay_rows_example :
    (paid_order.status ≡ paid)
    × (get_item 7 after_payment.stock
        ≡ some (record item {
          reserved = pos 2 -ℤ units 7 paid_order.lines;
          quantity = pos 10 -ℤ units 7 paid_order.lines;
        }))
pay_rows_example =
    pay_rows env order_number (text "mock") paid_order after after_payment 7 after-IsBalanced
      was_paid held_row

transition_outcome_example : MovedAs env order_number cancelled cancelled_order after after_cancel
transition_outcome_example =
    transition_outcome env order_number cancelled none cancelled_order after after_cancel
      was_cancelled

cancel_succeeds_example :
    (o : Order) × ((transition env order_number cancelled none after).0 ≡ ok o)
    × (o.status ≡ cancelled)
cancel_succeeds_example =
    cancel_succeeds env order_number none after after-IsBalanced placed_order_found
      placed_order_awaits

pay_iff_example : ((o : Order) × ((pay env order_number (text "mock") after).0 ≡ ok o)) ↔ (
    (reference : Text) × (last_intent order.events ≡ some reference)
    × (find_intent reference after.intents ≢ none))
pay_iff_example =
    pay_iff env order_number after after-IsBalanced placed_order_found placed_order_awaits

place_order_amounts_example :
    (order.subtotal
      ≡ fixed (decimal_places currencies order.currency_code) (total_coeff order.lines))
    × All
        (λ (l : OrderLine).
          l.line_total
          ≡ fixed
              (decimal_places currencies order.currency_code)
              (l.unit_price.coeff *ℤ l.quantity))
        order.lines
place_order_amounts_example =
    place_order_amounts env draws request order shop after placed order_size_small
