-- ===== src/Inventory/Bounds.antt =====
-- No call of the service oversells: in every row 0 ≤ reserved ≤ quantity.
use neo_store.Prelude.{ℕ, ◌≡◌, Option, some}
use neo_store.Prelude.Int.{ℤ, pos, ◌≤ℤ◌, int_laws, max_ℤ}
use neo_store.Prelude.Text.{Text}
use neo_store.Inventory.{
  Stock, InventoryItem, get_item, item_available, reserve, release, commit_reservation, adjust,
  ensure_item,
}
use neo_store.Inventory.Lookup.{stock_laws}

pub record ItemIsBounded (item : InventoryItem) : Type 0 where
  pub reserved_nonneg : pos 0 ≤ℤ item.reserved
  pub reserved_covered : item.reserved ≤ℤ item.quantity

pub record IsBounded (s : Stock) : Type 0 where
  pub at_key : (k : ℕ) (item : InventoryItem) → get_item k s ≡ some item → ItemIsBounded item

-- A reservation keeps every row within its bounds, whether it succeeds or raises.
pub reserve-IsBounded : (v : ℕ) (q : ℤ) (s : Stock) → IsBounded s → IsBounded (reserve v q s).1
unfolding reserve item_available
reserve-IsBounded v q s h = record { at_key = λ k item. grind (int_laws, stock_laws, h.at_key) }

pub release-IsBounded : (v : ℕ) (q : ℤ) (s : Stock) → IsBounded s → IsBounded (release v q s).1
unfolding release max_ℤ
release-IsBounded v q s h = record { at_key = λ k item. grind (int_laws, stock_laws, h.at_key) }

pub commit_reservation-IsBounded :
    (v : ℕ) (q : ℤ) (s : Stock) → IsBounded s → IsBounded (commit_reservation v q s).1
unfolding commit_reservation max_ℤ
commit_reservation-IsBounded v q s h = record {
  at_key = λ k item. grind (int_laws, stock_laws, h.at_key);
}

pub adjust-IsBounded :
    (v : ℕ) (d : ℤ) (reason : Text) (remark : Option Text) (s : Stock)
    → IsBounded s
    → IsBounded (adjust v d reason remark s).1
unfolding adjust ensure_item max_ℤ
adjust-IsBounded v d reason remark s h = record {
  at_key = λ k item. grind (int_laws, stock_laws, h.at_key);
}

-- A row that is made has the quantity that was asked for, which must not be negative.
pub ensure_item-IsBounded :
    (v q : ℕ) (s : Stock) → IsBounded s → IsBounded (ensure_item v (pos q) s).1
unfolding ensure_item
ensure_item-IsBounded v q s h = record { at_key = λ k item. grind (int_laws, stock_laws, h.at_key) }
