-- ===== src/Order/Progress.antt =====
-- An order that awaits payment is never stuck: in a balanced shop its stock can be released, and
-- committed once its intent confirms (backend/app/domain/order/service.py, `transition` and `pay`).
use neo_store.Order.Moves.{moved}
use neo_store.Order.Accounts.{IsBalanced, find_by_ref-get}
use neo_store.Order.Status.{assert_transition, awaiting_payment, cancelled, paid}
use neo_store.Payment.{get_payment_provider, confirm, find_intent}
use neo_store.Prelude.Text.{Text, text}
use neo_store.Order.Shop.{Env, Shop, find_by_ref, order_key, put_order}
use neo_store.Order.Outstanding.{owed, Sound, owed-le-outstanding}
use neo_store.Prelude.Table
use neo_store.Inventory.Lookup.{stock_laws}
use neo_store.Result.{ok}
use neo_store.Cart.Lines.{units_of}
use neo_store.Order.Models.{OrderLine, cancel, move_to, Order, mark_paid}
use neo_store.Prelude.Int.{pos, ℤ, ◌≤ℤ◌, int_laws}
use neo_store.Order.Units.{reserved_units, units, IsPositive, units_nonneg}
use neo_store.Prelude.{
  ℕ, List, Option, some, ◌≡◌, All, ◌∷◌, [], ◌≢◌, arith, refl, Option-cases, none, inl, inr, ◌↔◌,
  ◌++◌,
}
use neo_store.Inventory.{commit_reservation, Stock, release, get_item}
use neo_store.Order.Service.{
  commit_lines, release_lines, on_variant, pay, transition, get_by_ref, transition_to, last_intent,
}

-- Each variant of the lines has a stock row.
abbrev HasRow : Stock → Option ℕ → Type 0
HasRow s none = Unit
HasRow s (some k) = get_item k s ≢ none

abbrev HasRows : Stock → List OrderLine → Type 0
HasRows s ls = All (λ (l : OrderLine). HasRow s l.variant_id) ls

-- Releasing or committing one variant succeeds on a row, and keeps every row.
release_row :
    (w : Option ℕ) (q : ℤ) (s : Stock) → HasRow s w → (on_variant w (λ k. release k q) s).0 ≡ ok tt
unfolding release
release_row none q s h = refl
release_row (some k) q s h = elim (Option-cases (get_item k s)) [
  | inl e ↦ absurd (h e)
  | inr (i, e) ↦ ground arith
]

commit_row :
    (w : Option ℕ) (q : ℤ) (s : Stock)
    → HasRow s w
    → (on_variant w (λ k. commit_reservation k q) s).0 ≡ ok tt
unfolding commit_reservation
commit_row none q s h = refl
commit_row (some k) q s h = elim (Option-cases (get_item k s)) [
  | inl e ↦ absurd (h e)
  | inr (i, e) ↦ ground arith
]

release_keeps :
    (w : Option ℕ) (q : ℤ) (s : Stock) (v : Option ℕ)
    → HasRow s v
    → HasRow (on_variant w (λ k. release k q) s).1 v
unfolding release
release_keeps none q s v h = h
release_keeps (some k) q s none h = tt
release_keeps (some k) q s (some v) h = grind (int_laws, stock_laws, h)

commit_keeps :
    (w : Option ℕ) (q : ℤ) (s : Stock) (v : Option ℕ)
    → HasRow s v
    → HasRow (on_variant w (λ k. commit_reservation k q) s).1 v
unfolding commit_reservation
commit_keeps none q s v h = h
commit_keeps (some k) q s none h = tt
commit_keeps (some k) q s (some v) h = grind (int_laws, stock_laws, h)

HasRows-step :
    (s t : Stock)
    → ((v : Option ℕ) → HasRow s v → HasRow t v)
    → (ls : List OrderLine) → HasRows s ls
    → HasRows t ls
HasRows-step s t f [] h = tt
HasRows-step s t f (l ∷ ls) h = (f l.variant_id h.0, HasRows-step s t f ls h.1)

release_lines-ok : (ls : List OrderLine) (s : Stock) → HasRows s ls → (release_lines ls s).0 ≡ ok tt
unfolding release_lines
release_lines-ok [] s h = refl
release_lines-ok (l ∷ ls) s h =
    let t : Stock = (on_variant l.variant_id (λ k. release k l.quantity) s).1 in
    let rest =
      release_lines-ok ls t (HasRows-step s t (release_keeps l.variant_id l.quantity s) ls h.1) in
    ground (arith, release_row l.variant_id l.quantity s h.0)

commit_lines-ok : (ls : List OrderLine) (s : Stock) → HasRows s ls → (commit_lines ls s).0 ≡ ok tt
unfolding commit_lines
commit_lines-ok [] s h = refl
commit_lines-ok (l ∷ ls) s h =
    let t : Stock = (on_variant l.variant_id (λ k. commit_reservation k l.quantity) s).1 in
    let rest =
      commit_lines-ok ls t (HasRows-step s t (commit_keeps l.variant_id l.quantity s) ls h.1) in
    ground (arith, commit_row l.variant_id l.quantity s h.0)

-- What is reserved in part has a row.
row_of_reserved : (k : ℕ) (s : Stock) → pos 1 ≤ℤ reserved_units k s → get_item k s ≢ none
unfolding reserved_units
row_of_reserved k s h e = ground arith

-- Lines whose units are all reserved have rows.
reserved-HasRow :
    (s : Stock) (w : Option ℕ) (q : ℤ)
    → pos 1 ≤ℤ q
    → ((v : ℕ) → units_of v w q ≤ℤ reserved_units v s)
    → HasRow s w
reserved-HasRow s none q p h = tt
reserved-HasRow s (some k) q p h = row_of_reserved k s (ground (arith, h k))

line_nonneg : (v : ℕ) (w : Option ℕ) (q : ℤ) → pos 1 ≤ℤ q → pos 0 ≤ℤ units_of v w q
line_nonneg v none q p = omega arith
line_nonneg v (some k) q p = ground arith

reserved-HasRows :
    (s : Stock) (ls : List OrderLine)
    → All IsPositive ls
    → ((v : ℕ) → units v ls ≤ℤ reserved_units v s)
    → HasRows s ls
reserved-HasRows s [] p h = tt
reserved-HasRows s (l ∷ ls) p h = (
  reserved-HasRow s l.variant_id l.quantity p.0
      (λ v. let n = units_nonneg v ls p.1 in let m = h v in omega int_laws),
  reserved-HasRows s ls p.1
      (λ v. let n = line_nonneg v l.variant_id l.quantity p.0 in let m = h v in omega int_laws),
)

-- The stock of an order that awaits payment is there to be settled.
awaiting-HasRows :
    (env : Env) (ref : Text) (s : Shop) {order : Order}
    → IsBalanced s
    → find_by_ref env ref s ≡ some order
    → order.status ≡ awaiting_payment
    → HasRows s.stock order.lines
unfolding owed
awaiting-HasRows env ref s {order} b f a =
    let at = find_by_ref-get env ref s b.keyed f in
    let sound = Table.get-All order_key Sound order.id s.orders b.sound at in
    let was : (v : ℕ) → owed v order ≡ units v order.lines = λ v. cc a in
    reserved-HasRows s.stock order.lines sound.1
      (λ v. rw (b.balanced v, ← was v) (owed-le-outstanding v order.id s.orders b.sound at))

-- In a balanced shop an administrator can always cancel an order that awaits payment: the
-- transition to CANCELLED succeeds, and the order that it returns is cancelled.
pub cancel_succeeds :
    (env : Env) (ref : Text) (remark : Option Text) (s : Shop) {order : Order}
    → IsBalanced s
    → find_by_ref env ref s ≡ some order
    → order.status ≡ awaiting_payment
    → (o : Order) × ((transition env ref cancelled remark s).0 ≡ ok o) × (o.status ≡ cancelled)
unfolding transition transition_to get_by_ref cancel move_to assert_transition put_order
cancel_succeeds env ref remark s {order} b f a =
    let rows = awaiting-HasRows env ref s b f a in
    let settled = release_lines-ok order.lines s.stock rows in
    (moved cancelled remark order, ground arith, refl)

-- In a balanced shop an order that awaits payment can be paid exactly when the gateway still knows
-- the last intent that its events record.
pub pay_iff :
    (env : Env) (ref : Text) (s : Shop) {order : Order}
    → IsBalanced s
    → find_by_ref env ref s ≡ some order
    → order.status ≡ awaiting_payment
    → ((o : Order) × ((pay env ref (text "mock") s).0 ≡ ok o)) ↔ (
        (reference : Text) × (last_intent order.events ≡ some reference)
        × (find_intent reference s.intents ≢ none))
unfolding pay get_by_ref get_payment_provider confirm mark_paid move_to assert_transition put_order
pay_iff env ref s {order} b f a =
    let rows = awaiting-HasRows env ref s b f a in
    let settled = commit_lines-ok order.lines s.stock rows in
    elim (Option-cases (last_intent order.events)) [
      | inl e ↦ (λ h. absurd (ground arith), λ h. absurd (ground arith))
      | inr (reference, e) ↦ elim (Option-cases (find_intent reference s.intents)) [
        | inl g ↦ (λ (o, h). absurd (ground arith), λ h. absurd (h.2 (cc (h.1, e, g))))
        | inr (intent, g) ↦ (
          λ h. (reference, e, ground arith),
          λ h. (moved paid (some (text "confirmed:" ++ reference)) order, ground arith),
        )
      ]
    ]
