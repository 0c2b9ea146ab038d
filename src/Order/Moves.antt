-- ===== src/Order/Moves.antt =====
-- What a successful payment or status change has done, for every target status at once.
use neo_store.Payment.{get_payment_provider, confirm, find_intent}
use neo_store.Result.{ok, Result-cases}
use neo_store.Order.Service.{
  commit_lines, release_lines, move_only, transition_to, transition, pay, get_by_ref, last_intent,
}
use neo_store.Inventory.{Stock}
use neo_store.Exec.{Exec, pure}
use neo_store.Order.Models.{
  Order, OrderLine, move_to, cancel, mark_fulfilled, mark_completed, refund, mark_awaiting_payment,
  mark_paid,
}
use neo_store.Prelude.Text.{Text, text}
use neo_store.Order.Status.{
  OrderStatus, assert_transition, paid, cancelled, draft, awaiting_payment, fulfilled, completed,
  refunded,
}
use neo_store.Order.Shop.{Env, Shop, find_by_ref, put_order}
use neo_store.Prelude.{
  List, Option, ◌≡◌, some, inr, inl, arith, refl, ◌++◌, ◌∷◌, [], ◌≢◌, Option-cases,
}

-- What a move to a status does to the stock of the order's lines.
abbrev pub settle_stock : OrderStatus → List OrderLine → Exec Stock (Unit {0})
settle_stock paid ls = commit_lines ls
settle_stock cancelled ls = release_lines ls
settle_stock draft ls = pure tt
settle_stock awaiting_payment ls = pure tt
settle_stock fulfilled ls = pure tt
settle_stock completed ls = pure tt
settle_stock refunded ls = pure tt

-- The order that was found has moved to the target, and only it and the stock of its lines have
-- changed.
pub record MovedAs (env : Env) (ref : Text) (target : OrderStatus) (o : Order) (s t : Shop)
    : Type 0 where
  pub order : Order
  pub found : find_by_ref env ref s ≡ some order
  pub allowed : assert_transition order.status target ≡ ok tt
  pub id : o.id ≡ order.id
  pub number : o.number ≡ order.number
  pub lines : o.lines ≡ order.lines
  pub total : o.total ≡ order.total
  pub status : o.status ≡ target
  pub orders : t.orders ≡ (put_order o s).orders
  pub stock : settle_stock target o.lines s.stock ≡ (ok tt, t.stock)
  pub carts : t.carts ≡ s.carts

-- The order after a move that is allowed.
abbrev pub moved : OrderStatus → Option Text → Order → Order
moved target remark order = record order {
  status = target;
  events =
      order.events
      ++ record { from_status = some order.status; to_status = target; note = remark } ∷ [];
}

-- A move succeeds only where the status machine allows it, with this result.
move_to-eq-ok :
    (target : OrderStatus) (remark : Option Text) (order o : Order)
    → move_to target remark order ≡ ok o
    → (assert_transition order.status target ≡ ok tt) × (moved target remark order ≡ o)
unfolding move_to
move_to-eq-ok target remark order o h = ground arith

never_draft : (current : OrderStatus) → assert_transition current draft ≢ ok tt
unfolding assert_transition
never_draft current h = ground arith

module _ (env : Env) (ref : Text) (order o : Order) (s t : Shop)
    (found : find_by_ref env ref s ≡ some order) where
  moved_to_outcome :
      (target : OrderStatus) (remark : Option Text)
      → move_to target remark order ≡ ok o
      → t.orders ≡ (put_order o s).orders
      → settle_stock target o.lines s.stock ≡ (ok tt, t.stock)
      → t.carts ≡ s.carts
      → MovedAs env ref target o s t
  moved_to_outcome target remark m orders stock carts =
      let (allowed, e) = move_to-eq-ok target remark order o m in
      record {
        order = order;
        found = found;
        allowed = allowed;
        id = rw (← e) refl;
        number = rw (← e) refl;
        lines = rw (← e) refl;
        total = rw (← e) refl;
        status = rw (← e) refl;
        orders = orders;
        stock = stock;
        carts = carts;
      }

  move_only_outcome :
      (target : OrderStatus) (remark : Option Text)
      → settle_stock target o.lines s.stock ≡ (ok tt, s.stock)
      → move_only (move_to target remark) order s ≡ (ok o, t)
      → MovedAs env ref target o s t
  unfolding move_only put_order
  move_only_outcome target remark same h = elim (Result-cases (move_to target remark order)) [
    | inr (e, m) ↦ absurd (ground arith)
    | inl (o', m) ↦
        moved_to_outcome target remark (ground arith) (ground arith) (ground arith) (ground arith)
  ]

  cancel_outcome :
      (remark : Option Text)
      → transition_to env ref cancelled remark order s ≡ (ok o, t)
      → MovedAs env ref cancelled o s t
  unfolding transition_to cancel put_order
  cancel_outcome remark h = elim (Result-cases (move_to cancelled remark order)) [
    | inr (e, m) ↦ absurd (ground arith)
    | inl (o', m) ↦
        moved_to_outcome cancelled remark (ground arith) (ground arith) (ground arith)
          (ground arith)
  ]

  -- The steps of a payment up to the move, for the order that was found.
  pay_outcome :
      (provider_code : Text) → pay env ref provider_code s ≡ (ok o, t) → MovedAs env ref paid o s t
  unfolding pay get_by_ref get_payment_provider confirm mark_paid put_order
  pay_outcome provider_code h = elim (Option-cases (last_intent order.events)) [
    | inl e ↦ absurd (ground arith)
    | inr (reference, e) ↦
        let remark : Option Text = some (text "confirmed:" ++ reference) in
        elim (Option-cases (find_intent reference s.intents)) [
          | inl f ↦ absurd (ground arith)
          | inr (intent, f) ↦ elim (Result-cases (move_to paid remark order)) [
            | inr (x, m) ↦ absurd (ground arith)
            | inl (o', m) ↦
                moved_to_outcome paid remark (ground arith) (ground arith) (ground arith)
                  (ground arith)
          ]
        ]
  ]

  transition_to_outcome :
      (target : OrderStatus) (remark : Option Text)
      → transition_to env ref target remark order s ≡ (ok o, t)
      → MovedAs env ref target o s t
  unfolding transition_to mark_fulfilled mark_completed refund mark_awaiting_payment
  transition_to_outcome draft remark h =
      elim (Result-cases (assert_transition order.status draft)) [
        | inl (u, a) ↦ absurd (never_draft order.status a)
        | inr (x, a) ↦ absurd (ground arith)
      ]
  transition_to_outcome awaiting_payment remark h = move_only_outcome awaiting_payment remark refl h
  transition_to_outcome paid remark h = pay_outcome (text "mock") h
  transition_to_outcome fulfilled remark h = move_only_outcome fulfilled remark refl h
  transition_to_outcome completed remark h = move_only_outcome completed remark refl h
  transition_to_outcome cancelled remark h = cancel_outcome remark h
  transition_to_outcome refunded remark h = move_only_outcome refunded remark refl h

-- A transition that succeeds has moved the order that its reference names to the target, by a
-- move that the status machine allows; it has committed the stock of the order's lines if the
-- target is PAID, released it if the target is CANCELLED, and left the stock alone otherwise; and
-- the carts are unchanged.
pub transition_outcome :
    (env : Env) (ref : Text) (target : OrderStatus) (remark : Option Text) (o : Order) (s t : Shop)
    → transition env ref target remark s ≡ (ok o, t)
    → MovedAs env ref target o s t
unfolding transition get_by_ref
transition_outcome env ref target remark o s t h = elim (Option-cases (find_by_ref env ref s)) [
  | inl e ↦ absurd (ground arith)
  | inr (order, e) ↦ transition_to_outcome env ref order o s t e target remark (ground arith)
]

-- A payment that succeeds has moved the order that its reference names to PAID, by a move that the
-- status machine allows, and has committed the stock of the order's lines; the order's number, lines
-- and total, and the carts, are unchanged.
pub pay-MovedAs :
    (env : Env) (ref provider_code : Text) (o : Order) (s t : Shop)
    → pay env ref provider_code s ≡ (ok o, t)
    → MovedAs env ref paid o s t
unfolding pay get_by_ref
pay-MovedAs env ref provider_code o s t h = elim (Option-cases (find_by_ref env ref s)) [
  | inl e ↦ absurd (ground arith)
  | inr (order, e) ↦ pay_outcome env ref order o s t e provider_code h
]
