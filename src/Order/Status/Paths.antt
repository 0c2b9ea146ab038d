-- ===== src/Order/Status/Paths.antt =====
-- The life of an order as a walk along the allowed transitions
-- (backend/app/domain/order/state_machine.py).
use neo_store.Result.{ok}
use neo_store.Prelude.Text.{upper, lower}
use neo_store.Prelude.{◌≡◌, ◌+◌, ◌≤◌, ℕ, Bool, ◌⊎◌, arith, false, suc, true, ◌<◌, inl, inr, refl}
use neo_store.Order.Status.{
  validate_status, assert_transition, OrderStatus, draft, status_text, awaiting_payment, paid,
  fulfilled, completed, cancelled, refunded,
}

-- The walks from one status to another, each step of which `assert_transition` lets pass.
pub data Reaches (a : OrderStatus) : OrderStatus → Type 0 where
  start : Reaches a a
  step : {b c : OrderStatus} → Reaches a b → assert_transition b c ≡ ok tt → Reaches a c

abbrev pub moves : {a b : OrderStatus} → Reaches a b → ℕ
moves start = 0
moves (step r e) = suc (moves r)

-- How far a status is from the draft; the final ones are furthest.
abbrev rank : OrderStatus → ℕ
rank draft = 0
rank awaiting_payment = 1
rank paid = 2
rank fulfilled = 3
rank completed = 4
rank cancelled = 5
rank refunded = 5

rank-lt : (a b : OrderStatus) → assert_transition a b ≡ ok tt → rank a < rank b
unfolding assert_transition
rank-lt a b e = ground arith

moves-le-rank : {a b : OrderStatus} (r : Reaches a b) → moves r + rank a ≤ rank b
moves-le-rank start = omega arith
moves-le-rank (step {b} {c} r e) = omega (arith, moves-le-rank r, rank-lt b c e)

rank_bound : (a : OrderStatus) → rank a ≤ 5
rank_bound a = ground arith

-- No order moves more than five times, so no walk comes back to where it was.
pub moves_bound : {a b : OrderStatus} (r : Reaches a b) → moves r ≤ 5
moves_bound {a} {b} r = omega (arith, moves-le-rank r, rank_bound b)

-- Does the walk pass through the status, its ends included?
abbrev pub Visits : (x : OrderStatus) {a b : OrderStatus} → Reaches a b → Type 0
Visits x {a} start = a ≡ x
Visits x (step {b} {c} r e) = (c ≡ x) ⊎ Visits x r

-- The statuses that only a payment leads to.
abbrev pub is_settled : OrderStatus → Bool
is_settled draft = false
is_settled awaiting_payment = false
is_settled paid = true
is_settled fulfilled = true
is_settled completed = true
is_settled cancelled = false
is_settled refunded = true

settled_before :
    (a b : OrderStatus)
    → assert_transition a b ≡ ok tt
    → is_settled b ≡ true
    → (b ≡ paid) ⊎ (is_settled a ≡ true)
unfolding assert_transition
settled_before a paid e s = inl refl
settled_before a fulfilled e s = inr (ground arith)
settled_before a completed e s = inr (ground arith)
settled_before a refunded e s = inr (ground arith)
settled_before a draft e s = absurd (ground arith)
settled_before a awaiting_payment e s = absurd (ground arith)
settled_before a cancelled e s = absurd (ground arith)

-- An order that is fulfilled, completed or refunded has been paid: every walk there from the draft
-- passes through PAID.
pub settled_was_paid : {b : OrderStatus} (r : Reaches draft b) → is_settled b ≡ true → Visits paid r
settled_was_paid start s = absurd (ground arith)
settled_was_paid (step {b} {c} r e) s = elim (settled_before b c e s) [
  | inl p ↦ inl p
  | inr s' ↦ inr (settled_was_paid r s')
]

-- The status that an administrator names is read back, in any case of its letters.
pub validate_status-status_text :
    (s : OrderStatus)
    → (validate_status (status_text s) ≡ ok s) × (validate_status (upper (status_text s)) ≡ ok s)
unfolding validate_status status_text upper lower
validate_status-status_text draft = (refl, refl)
validate_status-status_text awaiting_payment = (refl, refl)
validate_status-status_text paid = (refl, refl)
validate_status-status_text fulfilled = (refl, refl)
validate_status-status_text completed = (refl, refl)
validate_status-status_text cancelled = (refl, refl)
validate_status-status_text refunded = (refl, refl)
