-- ===== src/Order/Accounts.antt =====
-- The shop's books: the reserved stock of a variant is what the orders awaiting payment hold of it.
-- Checkout, payment and each move of an order keep that
-- (backend/app/domain/order/service.py with backend/app/domain/inventory/service.py).
use neo_store.Order.Settling.{
  commit_lines-IsBounded, commit_lines-units, release_lines-IsBounded, release_lines-units,
}
use neo_store.Order.Moves.{settle_stock, MovedAs}
use neo_store.Inventory.{Stock}
use neo_store.Order.Status.{
  assert_transition, OrderStatus, draft, paid, cancelled, awaiting_payment, fulfilled, completed,
  refunded,
}
use neo_store.Prelude.Text.{Text, text_eq}
use neo_store.Order.Drafted.{order_lines_outcome, AllDrafted-IsPositive, units-AllDrafted}
use neo_store.Order.Outcome.{place_order_outcome, opened, put_order_rows, placed_rows}
use neo_store.Prelude.Int.{◌+ℤ◌, add-cancel, add-zero, ◌≤ℤ◌, ◌-ℤ◌, pos, sub-zero, sub-add}
use neo_store.Result.{ok}
use neo_store.Order.Units.{
  reserved_units, units, reserve_lines_positive, reserve_lines-IsBounded, reserve_lines_units,
  IsPositive,
}
use neo_store.Inventory.Bounds.{IsBounded}
use neo_store.Order.Service.{Request, place_order, reserve_lines, commit_lines, release_lines}
use neo_store.Prelude.{
  All, ◌≡◌, none, ℕ, ap, arith, refl, some, inl, inr, Option, or_else, ◌⊎◌, Bool, ◌≢◌, List, true,
  sym, false, if◌then◌else◌,
}
use neo_store.Order.Outstanding.{
  Sound, outstanding, owed, owed_of, outstanding-put, owed-le-outstanding, is_awaiting,
}
use neo_store.Order.Models.{Order, OrderLine}
use neo_store.Order.Shop.{Env, Shop, Draws, order_key, find_by_ref, get_by_number}
use neo_store.Prelude.Table
use mathlib.Core.Option

-- The order table is keyed by its ids; no order in it is a draft, and the quantities of its lines
-- are positive; no row of the stock is oversold; and the reserved units of a variant are those
-- that the orders awaiting payment hold.
pub record IsBalanced (s : Shop) : Type 0 where
  pub keyed : Table.Keyed order_key s.orders
  pub sound : All Sound s.orders
  pub bounded : IsBounded s.stock
  pub balanced : (v : ℕ) → reserved_units v s.stock ≡ outstanding v s.orders

-- A write of a sound order, with a stock that has changed by what the order holds now and held
-- before.
write-IsBalanced :
    (o : Order) (s t : Shop)
    → IsBalanced s
    → Sound o
    → t.orders ≡ Table.put order_key o s.orders
    → IsBounded t.stock
    → ((v : ℕ)
        → reserved_units v t.stock +ℤ owed_of v (Table.get order_key o.id s.orders)
          ≡ reserved_units v s.stock +ℤ owed v o)
    → IsBalanced t
write-IsBalanced o s t b sound e bounded h = record {
  keyed = rw e (Table.put-Keyed order_key o s.orders b.keyed);
  sound = rw e (Table.put-All order_key Sound o s.orders sound b.sound);
  bounded = bounded;
  balanced = λ v. rw e (
      add-cancel _ _ (owed_of v (Table.get order_key o.id s.orders))
        (cc (h v, b.balanced v, outstanding-put v o s.orders)));
}

o_owed : (draws : Draws) (d : Order) (v : ℕ) → owed v (opened draws d) ≡ units v d.lines
unfolding owed
o_owed draws d v = refl

-- The checkout of a cart with a fresh order id.
pub place_order-IsBalanced :
    (env : Env) (draws : Draws) (request : Request) (o : Order) (s t : Shop)
    → Table.get order_key draws.order_id s.orders ≡ none
    → IsBalanced s
    → place_order env draws request s ≡ (ok o, t)
    → IsBalanced t
place_order-IsBalanced env draws request o s t fresh b h =
    let p = place_order_outcome env draws request o s t h in
    let ls =
      order_lines_outcome env _ p.cart.currency_code p.cart.lines p.drafted.lines p.priced.lines in
    let ok_lines : (reserve_lines p.cart.lines s.stock).0 ≡ ok tt = ap (λ r. r.0) p.reserved in
    let e : t.stock ≡ (reserve_lines p.cart.lines s.stock).1 = cc (p.reserved) in
    let o' = opened draws p.drafted in
    write-IsBalanced o' s t b
      (
        ground arith,
        AllDrafted-IsPositive env p.cart.currency_code p.cart.lines p.drafted.lines ls
            (reserve_lines_positive p.cart.lines s.stock ok_lines),
      )
      (cc (p.result, placed_rows env draws request o s t p))
      (rw e (reserve_lines-IsBounded p.cart.lines s.stock b.bounded))
      (λ v.
        let g : Table.get order_key o'.id s.orders ≡ none = rw p.priced.id fresh in
        let u = units-AllDrafted env p.cart.currency_code v p.cart.lines p.drafted.lines ls in
        let r = reserve_lines_units v p.cart.lines s.stock ok_lines in
        cc (e, g, u, r, o_owed draws p.drafted v, add-zero (reserved_units v t.stock)))

or_else-eq-some :
    (a b : Option Order) {o : Order} → or_else a b ≡ some o → (a ≡ some o) ⊎ (b ≡ some o)
or_else-eq-some none b h = inr h
or_else-eq-some (some x) b h = inl h

bind-eq-some :
    (r : Option ℕ) (f : ℕ → Option Order) {o : Order}
    → Option.bind r f ≡ some o
    → (id : ℕ) × (f id ≡ some o)
unfolding Option.bind
bind-eq-some none f h = absurd (ground arith)
bind-eq-some (some id) f h = (id, h)

-- An order that a reference finds stands in the table under its id.
pub find_by_ref-get :
    (env : Env) (ref : Text) (s : Shop) {o : Order}
    → Table.Keyed order_key s.orders
    → find_by_ref env ref s ≡ some o
    → Table.get order_key o.id s.orders ≡ some o
unfolding find_by_ref get_by_number
find_by_ref-get env ref s {o} k h =
    elim (or_else-eq-some (Option.bind (env.parse_uuid ref) (λ id. Table.get order_key id s.orders))
      _ h) [
        | inr e ↦ Table.find-get order_key (λ (x : Order). text_eq x.number ref) s.orders k e
        | inl e ↦
            let (id, e') = bind-eq-some (env.parse_uuid ref) _ e in
            cc (Table.get_key order_key id s.orders e', e')
      ]

unchanged :
    (s t : Stock)
    → IsBounded s
    → s ≡ t
    → IsBounded t × ((v : ℕ) → reserved_units v t ≡ reserved_units v s -ℤ pos 0)
unchanged s t b e = rw (← e) (b, λ v. sym (sub-zero (reserved_units v s)))

-- The moves of an order that is no draft which end what it holds.
abbrev settles : OrderStatus → Bool
settles paid = true
settles cancelled = true
settles draft = false
settles awaiting_payment = false
settles fulfilled = false
settles completed = false
settles refunded = false

pub settles-is_awaiting :
    (current target : OrderStatus)
    → current ≢ draft
    → assert_transition current target ≡ ok tt
    → (is_awaiting current ≡ settles target) × (is_awaiting target ≡ false) × (target ≢ draft)
unfolding assert_transition
settles-is_awaiting current target n a = ground arith

-- The stock that a settling of lines leaves, for an order that holds them where the move ends that.
settle-units :
    (target : OrderStatus) (ls : List OrderLine) (s t : Stock)
    → All IsPositive ls
    → IsBounded s
    → ((v : ℕ) → (if settles target then units v ls else pos 0) ≤ℤ reserved_units v s)
    → settle_stock target ls s ≡ (ok tt, t)
    → IsBounded t
      × ((v : ℕ)
          → reserved_units v t
            ≡ reserved_units v s -ℤ (if settles target then units v ls else pos 0))
settle-units paid ls s t p b h e =
    let e1 : (commit_lines ls s).0 ≡ ok tt = ap (λ r. r.0) e in
    let e2 : (commit_lines ls s).1 ≡ t = ap (λ r. r.1) e in
    rw (← e2) (commit_lines-IsBounded ls s e1 b, λ v. commit_lines-units v ls s p b e1 (h v))
settle-units cancelled ls s t p b h e =
    let e1 : (release_lines ls s).0 ≡ ok tt = ap (λ r. r.0) e in
    let e2 : (release_lines ls s).1 ≡ t = ap (λ r. r.1) e in
    rw (← e2) (release_lines-IsBounded ls s e1 b, λ v. release_lines-units v ls s p e1 (h v))
settle-units draft ls s t p b h e = unchanged s t b (ap (λ r. r.1) e)
settle-units awaiting_payment ls s t p b h e = unchanged s t b (ap (λ r. r.1) e)
settle-units fulfilled ls s t p b h e = unchanged s t b (ap (λ r. r.1) e)
settle-units completed ls s t p b h e = unchanged s t b (ap (λ r. r.1) e)
settle-units refunded ls s t p b h e = unchanged s t b (ap (λ r. r.1) e)

-- A move that succeeds keeps the books.
pub MovedAs-IsBalanced :
    (env : Env) (ref : Text) (target : OrderStatus) (o : Order) (s t : Shop)
    → IsBalanced s
    → MovedAs env ref target o s t
    → IsBalanced t
unfolding owed
MovedAs-IsBalanced env ref target o s t b m =
    let at = find_by_ref-get env ref s b.keyed m.found in
    let sound = Table.get-All order_key Sound m.order.id s.orders b.sound at in
    let (before, after, n) = settles-is_awaiting m.order.status target sound.0 m.allowed in
    let was : (v : ℕ) → owed v m.order ≡ (if settles target then units v o.lines else pos 0) =
      λ v. cc (before, m.lines) in
    let is : (v : ℕ) → owed v o ≡ pos 0 = λ v. cc (after, m.status) in
    let positive : All IsPositive o.lines = rw m.lines sound.1 in
    let held : (v : ℕ)
        → (if settles target then units v o.lines else pos 0) ≤ℤ reserved_units v s.stock =
      λ v. rw (b.balanced v, ← was v) (owed-le-outstanding v m.order.id s.orders b.sound at) in
    let (bounded, change) =
      settle-units target o.lines s.stock t.stock positive b.bounded held m.stock in
    write-IsBalanced o s t b (rw m.status n, positive) (cc (m.orders, put_order_rows o s)) bounded
      (λ v. cc (
        change v,
        was v,
        is v,
        at,
        m.id,
        sub-add (reserved_units v s.stock) (if settles target then units v o.lines else pos 0),
      ))
