-- ===== src/Inventory/Ledger.antt =====
-- The movement ledger explains the rows: replaying it over the rows that it began with gives the
-- rows of now.
use neo_store.Prelude.{
  All, ℕ, ◌≡◌, refl, Option, some, List, [], ◌∷◌, ◌++◌, ◌==◌, Bool, false, ◌||◌, if◌then◌else◌,
}
use neo_store.Prelude.Int.{ℤ, pos, ◌+ℤ◌, int_laws, add_neg, max_ℤ}
use neo_store.Prelude.Text.{Text, text, text_eq}
use neo_store.Inventory.{
  Stock, StockMovement, InventoryItem, get_item, put_item, ensure_item, reserve, release,
  commit_reservation, adjust, record_movement,
}
use neo_store.Inventory.Calls.{
  StockCall, ensure, reserve_units, release_units, commit_units, adjust_units, run_call, run_calls,
}
use neo_store.Inventory.Lookup.{stock_laws, get_item_key}

-- What a movement says about its row.
explain : StockMovement → InventoryItem → InventoryItem
explain m item =
    if text_eq m.reason (text "reserve")
    then record item { reserved = item.reserved +ℤ m.delta }
    else if text_eq m.reason (text "release")
    then record item { reserved = max_ℤ (pos 0) (item.reserved +ℤ m.delta) }
    else if text_eq m.reason (text "commit")
    then record item {
      reserved = max_ℤ (pos 0) (item.reserved +ℤ m.delta);
      quantity = max_ℤ (pos 0) (item.quantity +ℤ m.delta);
    }
    else record item { quantity = max_ℤ (pos 0) (item.quantity +ℤ m.delta) }

pub replay : ℕ → List StockMovement → InventoryItem → InventoryItem
replay v [] item = item
replay v (m ∷ ms) item = replay v ms (if m.variant_id == v then explain m item else item)

replay-append :
    (v : ℕ) (ms : List StockMovement) (m : StockMovement) (item : InventoryItem)
    → replay v (ms ++ m ∷ []) item
      ≡ (if m.variant_id == v then explain m (replay v ms item) else replay v ms item)
unfolding replay
replay-append v [] m item = refl
replay-append v (n ∷ ms) m item =
    replay-append v ms m (if n.variant_id == v then explain n item else item)

-- A reason that an administrator gives is none of the service's own three.
abbrev is_own_reason : Text → Bool
is_own_reason r =
    text_eq r (text "reserve") || (text_eq r (text "release") || text_eq r (text "commit"))

abbrev pub IsManual : StockCall → Type 0
IsManual (adjust_units v d reason remark) = is_own_reason reason ≡ false
IsManual _ = Unit

-- The row of `v` is what the ledger says, from the row `first` on.
abbrev pub IsExplained : ℕ → InventoryItem → Stock → Type 0
IsExplained v first s = get_item v s ≡ some (replay v s.movements first)

movements-record_movement :
    (v : ℕ) (d : ℤ) (reason : Text) (remark : Option Text) (s : Stock)
    → (record_movement v d reason remark s).movements
      ≡ s.movements ++ record { variant_id = v; delta = d; reason = reason; note = remark } ∷ []
unfolding record_movement
movements-record_movement v d reason remark s = refl

movements-put_item : (item : InventoryItem) (s : Stock) → (put_item item s).movements ≡ s.movements
unfolding put_item
movements-put_item item s = refl

ruleset ledger_laws =
    (int_laws, stock_laws, movements-record_movement, movements-put_item, replay-append, add_neg)

module _ (v : ℕ) (first : InventoryItem) where
  run_call-IsExplained :
      (c : StockCall) (s : Stock)
      → IsManual c
      → IsExplained v first s
      → IsExplained v first (run_call c s)
  unfolding run_call explain ensure_item reserve release commit_reservation adjust
  run_call-IsExplained (ensure k q) s m h = grind ledger_laws
  run_call-IsExplained (reserve_units k q) s m h = grind (ledger_laws, get_item_key k s)
  run_call-IsExplained (release_units k q) s m h = grind (ledger_laws, get_item_key k s)
  run_call-IsExplained (commit_units k q) s m h = grind (ledger_laws, get_item_key k s)
  run_call-IsExplained (adjust_units k d reason remark) s m h =
      grind (ledger_laws, get_item_key k s)

  run_calls-IsExplained :
      (cs : List StockCall) (s : Stock)
      → All IsManual cs
      → IsExplained v first s
      → IsExplained v first (run_calls cs s)
  unfolding run_calls
  run_calls-IsExplained [] s m h = h
  run_calls-IsExplained (c ∷ cs) s m h =
      run_calls-IsExplained cs (run_call c s) m.1 (run_call-IsExplained c s m.0 h)

-- From an empty ledger on, after any calls whose adjustments carry none of the reasons that the
-- service itself writes, the row of every variant that had one is its first row with the movements
-- of that variant replayed over it.
pub ledger_explains_rows :
    (cs : List StockCall) (s : Stock) (v : ℕ) (first : InventoryItem)
    → s.movements ≡ []
    → get_item v s ≡ some first
    → All IsManual cs
    → get_item v (run_calls cs s) ≡ some (replay v (run_calls cs s).movements first)
unfolding replay
ledger_explains_rows cs s v first empty found m =
    run_calls-IsExplained v first cs s m (simp empty found)
