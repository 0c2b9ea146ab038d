-- ===== src/Inventory.antt =====
-- backend/app/domain/inventory: stock rows, the movement ledger, and the service that reserves,
-- releases, commits and adjusts stock. A variant's UUID is a number; a row lock is held until
-- the transaction ends, so the calls on one row are a sequence.
pub mod Lookup
pub mod Bounds
pub mod Effects
pub mod Calls
pub mod Ledger
use neo_store.Prelude.{ℕ, if◌then◌else◌, Option, none, some, List, [], ◌∷◌, ◌++◌}
use neo_store.Prelude.Int.{ℤ, pos, ◌+ℤ◌, ◌-ℤ◌, ltb_ℤ, leb_ℤ, max_ℤ}
use neo_store.Prelude.Text.{Text, text}
use neo_store.Prelude.Table
use neo_store.Errors.{insufficient_stock, not_found, invalid_quantity, plain_error, coded_error}
use neo_store.Exec.{Exec, pure, raise, gets, modify, raise_if, or_raise, ◌>>=◌, ◌>>◌}
use neo_store.Result.{ok}

pub record InventoryItem : Type 0 where
  pub variant_id : ℕ
  pub quantity : ℤ
  pub reserved : ℤ

-- `InventoryItem.available`
unfoldable pub item_available : InventoryItem → ℤ
item_available item = item.quantity -ℤ item.reserved

pub record StockMovement : Type 0 where
  pub variant_id : ℕ
  pub delta : ℤ
  pub reason : Text
  pub note : Option Text

-- The two tables of the component; new movements stand at the end.
pub record Stock : Type 0 where
  pub items : List InventoryItem
  pub movements : List StockMovement

abbrev pub item_key : InventoryItem → ℕ
item_key item = item.variant_id

-- `InventoryRepository.get` and `get_for_update`
unfoldable pub get_item : ℕ → Stock → Option InventoryItem
get_item variant_id s = Table.get item_key variant_id s.items

-- `session.add(item)`, and the flush of an item whose fields were assigned
unfoldable pub put_item : InventoryItem → Stock → Stock
put_item item s = record s { items = Table.put item_key item s.items }

-- `InventoryService._record`
unfoldable pub record_movement : ℕ → ℤ → Text → Option Text → Stock → Stock
record_movement variant_id delta reason note s = record s {
  movements =
      s.movements
      ++ record { variant_id = variant_id; delta = delta; reason = reason; note = note } ∷ [];
}

new_item : ℕ → ℤ → InventoryItem
new_item variant_id quantity = record {
  variant_id = variant_id;
  quantity = quantity;
  reserved = pos 0;
}

unfoldable pub ensure_item : ℕ → ℤ → Exec Stock InventoryItem
unfolding new_item
ensure_item variant_id quantity s = elim (get_item variant_id s) [
  | some item ↦ (ok item, s)
  | none ↦ let item = new_item variant_id quantity in (ok item, put_item item s)
]

unfoldable pub available : ℕ → Stock → ℤ
available variant_id s = elim (get_item variant_id s) [
  | none ↦ pos 0
  | some item ↦ item_available item
]

unfoldable pub reserve : ℕ → ℤ → Exec Stock (Unit {0})
reserve variant_id quantity = do
  raise_if (leb_ℤ quantity (pos 0)) (coded_error insufficient_stock invalid_quantity)
  item ← or_raise (← gets (get_item variant_id)) (plain_error insufficient_stock)
  raise_if (ltb_ℤ (item_available item) quantity) (plain_error insufficient_stock)
  modify (put_item (record item { reserved = item.reserved +ℤ quantity }))
  modify (record_movement variant_id quantity (text "reserve") none)

unfoldable pub release : ℕ → ℤ → Exec Stock (Unit {0})
release variant_id quantity = if leb_ℤ quantity (pos 0) then pure tt else do
  item ← or_raise (← gets (get_item variant_id)) (plain_error not_found)
  modify (put_item (record item { reserved = max_ℤ (pos 0) (item.reserved -ℤ quantity) }))
  modify (record_movement variant_id (pos 0 -ℤ quantity) (text "release") none)

unfoldable pub commit_reservation : ℕ → ℤ → Exec Stock (Unit {0})
commit_reservation variant_id quantity = if leb_ℤ quantity (pos 0) then pure tt else do
  item ← or_raise (← gets (get_item variant_id)) (plain_error not_found)
  modify (
      put_item (record item {
        reserved = max_ℤ (pos 0) (item.reserved -ℤ quantity);
        quantity = max_ℤ (pos 0) (item.quantity -ℤ quantity);
      }))
  modify (record_movement variant_id (pos 0 -ℤ quantity) (text "commit") none)

unfoldable pub adjust : ℕ → ℤ → Text → Option Text → Exec Stock InventoryItem
adjust variant_id delta reason note = do
  item ← ensure_item variant_id (pos 0)
  let new_quantity = item.quantity +ℤ delta
  raise_if (ltb_ℤ new_quantity item.reserved) (plain_error insufficient_stock)
  let adjusted = record item { quantity = max_ℤ (pos 0) new_quantity }
  modify (put_item adjusted)
  modify (record_movement variant_id delta reason note)
  pure adjusted
