-- ===== src/Order/Models.antt =====
-- backend/app/domain/order/models.py: the order aggregate. The address is kept as the text of its
-- JSON; an event's time is its place in the list.
use neo_store.Prelude.Int.{ℤ}
use neo_store.Decimal.{Decimal}
use neo_store.Order.Status.{
  OrderStatus, refunded, awaiting_payment, cancelled, completed, fulfilled, assert_transition, paid,
}
use neo_store.Prelude.Text.{Text}
use neo_store.Prelude.{ℕ, Option, List, ◌++◌, some, ◌∷◌, []}
use neo_store.Result.{◌>>◌, Result, ok}

pub record OrderLine : Type 0 where
  pub variant_id : Option ℕ
  pub product_name : Text
  pub variant_label : Option Text
  pub sku : Text
  pub unit_price : Decimal
  pub quantity : ℤ
  pub line_total : Decimal
  pub currency_code : Text

pub record OrderEvent : Type 0 where
  pub from_status : Option OrderStatus
  pub to_status : OrderStatus
  pub note : Option Text

pub record Order : Type 0 where
  pub id : ℕ
  pub number : Text
  pub status : OrderStatus
  pub region_code : Text
  pub currency_code : Text
  pub email : Text
  pub shipping_address : Text
  pub subtotal : Decimal
  pub shipping_fee : Decimal
  pub tax : Decimal
  pub total : Decimal
  pub idempotency_key : Option Text
  pub lines : List OrderLine
  pub events : List OrderEvent

-- `Order._transition`
unfoldable pub move_to : OrderStatus → Option Text → Order → Result Order
move_to target remark order = do
  assert_transition order.status target
  ok (record order {
    status = target;
    events =
        order.events
        ++ record { from_status = some order.status; to_status = target; note = remark } ∷ [];
  })

unfoldable pub mark_awaiting_payment : Option Text → Order → Result Order
unfolding move_to
mark_awaiting_payment remark order = move_to awaiting_payment remark order

unfoldable pub mark_paid : Option Text → Order → Result Order
unfolding move_to
mark_paid remark order = move_to paid remark order

unfoldable pub mark_fulfilled : Option Text → Order → Result Order
unfolding move_to
mark_fulfilled remark order = move_to fulfilled remark order

unfoldable pub mark_completed : Option Text → Order → Result Order
unfolding move_to
mark_completed remark order = move_to completed remark order

unfoldable pub cancel : Option Text → Order → Result Order
unfolding move_to
cancel remark order = move_to cancelled remark order

unfoldable pub refund : Option Text → Order → Result Order
unfolding move_to
refund remark order = move_to refunded remark order
