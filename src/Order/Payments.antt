-- ===== src/Order/Payments.antt =====
-- What a payment does to the stock (backend/app/domain/order/service.py, `pay`).
use neo_store.Order.Settling.{commit_lines_row}
use neo_store.Order.Moves.{pay-MovedAs}
use neo_store.Prelude.Int.{◌-ℤ◌, ◌≤ℤ◌}
use neo_store.Order.Status.{paid}
use neo_store.Result.{ok}
use neo_store.Order.Service.{pay, commit_lines}
use neo_store.Order.Accounts.{IsBalanced, find_by_ref-get, settles-is_awaiting}
use neo_store.Inventory.{InventoryItem, get_item}
use neo_store.Order.Models.{Order}
use neo_store.Prelude.Text.{Text}
use neo_store.Order.Shop.{Env, Shop, order_key}
use neo_store.Order.Units.{reserved_units, units, IsPositive}
use neo_store.Order.Outstanding.{owed, Sound, owed-le-outstanding}
use neo_store.Prelude.Table
use neo_store.Prelude.{ℕ, ◌≡◌, some, All, arith, ap, sym, ◌∙◌, subst}

-- In a balanced shop, a payment that succeeds leaves the order that it returns PAID, and takes exactly
-- the units of the order's lines off the reserved and off the physical stock of every variant that has
-- a stock row.
pub pay_rows :
    (env : Env) (ref provider_code : Text) (o : Order) (s t : Shop) (v : ℕ) {item : InventoryItem}
    → IsBalanced s
    → pay env ref provider_code s ≡ (ok o, t)
    → get_item v s.stock ≡ some item
    → (o.status ≡ paid)
      × (get_item v t.stock
          ≡ some (record item {
            reserved = item.reserved -ℤ units v o.lines;
            quantity = item.quantity -ℤ units v o.lines;
          }))
unfolding owed reserved_units
pay_rows env ref provider_code o s t v {item} b h g =
    let m = pay-MovedAs env ref provider_code o s t h in
    let at = find_by_ref-get env ref s b.keyed m.found in
    let sound = Table.get-All order_key Sound m.order.id s.orders b.sound at in
    let (before, after, n) = settles-is_awaiting m.order.status paid sound.0 m.allowed in
    let was : owed v m.order ≡ units v o.lines = cc (before, m.lines) in
    let positive : All IsPositive o.lines = rw m.lines sound.1 in
    let held : units v o.lines ≤ℤ reserved_units v s.stock =
      rw (b.balanced v, ← was) (owed-le-outstanding v m.order.id s.orders b.sound at) in
    let there : reserved_units v s.stock ≡ item.reserved = ground arith in
    let committed : (commit_lines o.lines s.stock).0 ≡ ok tt = ap (λ r. r.0) m.stock in
    let left : (commit_lines o.lines s.stock).1 ≡ t.stock = ap (λ r. r.1) m.stock in
    (
      m.status,
      ap (get_item v) (sym left)
          ∙ commit_lines_row v o.lines s.stock positive committed g
              (subst (λ x. units v o.lines ≤ℤ x) there held)
              (b.bounded.at_key v item g).reserved_covered,
    )
