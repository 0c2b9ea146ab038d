-- ===== src/Inventory/Lookup.antt =====
-- Reading a stock row after a write, and the movement ledger beside it.
use neo_store.Prelude.{ℕ, ◌≡◌, refl, Option, some, ◌==◌, if◌then◌else◌}
use neo_store.Prelude.Int.{ℤ}
use neo_store.Prelude.Text.{Text}
use neo_store.Prelude.Table
use neo_store.Inventory.{Stock, InventoryItem, item_key, get_item, put_item, record_movement}

pub get_item-put_item :
    (k : ℕ) (item : InventoryItem) (s : Stock)
    → get_item k (put_item item s) ≡ (if item.variant_id == k then some item else get_item k s)
unfolding get_item put_item
get_item-put_item k item s = Table.get-put item_key k item s.items

pub get_item-record_movement :
    (k v : ℕ) (delta : ℤ) (reason : Text) (remark : Option Text) (s : Stock)
    → get_item k (record_movement v delta reason remark s) ≡ get_item k s
unfolding get_item record_movement
get_item-record_movement k v delta reason remark s = refl

pub get_item_key :
    (k : ℕ) (s : Stock) (item : InventoryItem) → get_item k s ≡ some item → item.variant_id ≡ k
unfolding get_item
get_item_key k s item h = Table.get_key item_key k s.items h

pub ruleset stock_laws = (get_item-put_item, get_item-record_movement)
