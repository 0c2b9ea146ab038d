-- ===== src/Inventory/Effects.antt =====
-- What one call of the inventory service does to the row it names and to the others.
use neo_store.Prelude.{ℕ, ◌≡◌, ◌≢◌, ◌↔◌, Option, none, some}
use neo_store.Prelude.Int.{ℤ, pos, negsuc, ◌+ℤ◌, ◌-ℤ◌, ◌≤ℤ◌, int_laws, max_ℤ}
use neo_store.Prelude.Text.{Text}
use neo_store.Result.{ok, err}
use neo_store.Errors.{Exception, insufficient_stock, plain_error}
use neo_store.Inventory.{
  Stock, InventoryItem, get_item, item_available, available, reserve, release, commit_reservation,
  adjust, ensure_item,
}
use neo_store.Inventory.Bounds.{IsBounded}
use neo_store.Inventory.Lookup.{stock_laws, get_item_key}

-- A reservation succeeds exactly when its quantity is positive, the variant has a row, and the
-- row's available stock covers the quantity.
pub reserve_iff :
    (v : ℕ) (q : ℤ) (s : Stock)
    → ((reserve v q s).0 ≡ ok tt) ↔ ((pos 1 ≤ℤ q) × (get_item v s ≢ none) × (q ≤ℤ available v s))
unfolding reserve available
reserve_iff v q s = grind int_laws

-- A reservation that raises leaves the stock as it was.
pub reserve_raises :
    (v : ℕ) (q : ℤ) (s : Stock) {e : Exception} → (reserve v q s).0 ≡ err e → (reserve v q s).1 ≡ s
unfolding reserve
reserve_raises v q s h = grind int_laws

-- A successful reservation lowers what is available of its variant by its quantity, and keeps the
-- rows of all other variants.
pub reserve_effect :
    (v : ℕ) (q : ℤ) (s : Stock)
    → (reserve v q s).0 ≡ ok tt
    → (available v (reserve v q s).1 ≡ available v s -ℤ q)
      × ((k : ℕ) → k ≢ v → get_item k (reserve v q s).1 ≡ get_item k s)
unfolding reserve available item_available
reserve_effect v q s h = (
  grind (int_laws, stock_laws, get_item_key v s),
  λ k ne. grind (int_laws, stock_laws, get_item_key v s),
)

-- Releasing what was just reserved restores the row.
pub release-reserve :
    (v : ℕ) (q : ℤ) (s : Stock)
    → IsBounded s
    → (reserve v q s).0 ≡ ok tt
    → (k : ℕ) → get_item k (release v q (reserve v q s).1).1 ≡ get_item k s
unfolding reserve release item_available max_ℤ
release-reserve v q s b h k = grind (int_laws, stock_laws, get_item_key v s, b.at_key)

-- Committing what was just reserved takes the quantity off the physical stock of the variant and
-- leaves its reserved units as they were before the reservation.
pub commit_reservation-reserve :
    (v : ℕ) (q : ℤ) (s : Stock) {item : InventoryItem}
    → IsBounded s
    → get_item v s ≡ some item
    → (reserve v q s).0 ≡ ok tt
    → get_item v (commit_reservation v q (reserve v q s).1).1
      ≡ some (record item { quantity = item.quantity -ℤ q })
unfolding reserve commit_reservation item_available max_ℤ
commit_reservation-reserve v q s b g h = grind (int_laws, stock_laws, get_item_key v s, b.at_key)

-- An adjustment that keeps the available stock at zero or more changes it by its delta; any other
-- raises `InsufficientStockError` and leaves the available stock as it was. A variant with no row
-- counts as an empty one.
pub adjust_outcome :
    (v : ℕ) (d : ℤ) (reason : Text) (remark : Option Text) (s : Stock)
    → IsBounded s
    → (pos 0 ≤ℤ available v s +ℤ d
        → available v (adjust v d reason remark s).1 ≡ available v s +ℤ d)
      × (available v s +ℤ d ≤ℤ negsuc 0
          → ((adjust v d reason remark s).0 ≡ err (plain_error insufficient_stock))
            × (available v (adjust v d reason remark s).1 ≡ available v s))
unfolding adjust ensure_item available item_available max_ℤ
adjust_outcome v d reason remark s b = (
  λ h. grind (int_laws, stock_laws, get_item_key v s, b.at_key),
  λ h. (grind (int_laws, stock_laws), grind (int_laws, stock_laws)),
)
