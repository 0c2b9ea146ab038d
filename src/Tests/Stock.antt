-- ===== src/Tests/Stock.antt =====
-- Witnesses for the inventory.
use neo_store.Errors.{insufficient_stock, plain_error}
use neo_store.Inventory.Ledger.{replay, ledger_explains_rows}
use neo_store.Prelude.Text.{text}
use neo_store.Inventory.Effects.{
  release-reserve, reserve_effect, commit_reservation-reserve, reserve_iff, adjust_outcome,
}
use neo_store.Result.{ok, err}
use neo_store.Tests.Data.{stock, stock_bounds, item}
use neo_store.Inventory.Calls.{
  compete, run_calls, StockCall, reserve_units, commit_units, adjust_units, compete_never_oversells,
  run_calls-IsBounded, ensure,
}
use neo_store.Inventory.Bounds.{IsBounded}
use neo_store.Inventory.{
  get_item, reserve, available, item_available, release, commit_reservation, adjust,
}
use neo_store.Prelude.{ℕ, List, ◌∷◌, ◌≡◌, [], ◌≢◌, some, ◌↔◌, refl, none, arith}
use neo_store.Prelude.Int.{pos, ◌≤ℤ◌, ◌+ℤ◌, ◌-ℤ◌, negsuc}
use neo_store.Prelude.Table

stock-IsBounded : IsBounded stock
stock-IsBounded = record { at_key = stock_bounds }

run_calls-IsBounded_example :
    IsBounded
      (run_calls (ensure 8 (pos 5) ∷ reserve_units 8 (pos 3) ∷ commit_units 8 (pos 2) ∷ []) stock)
run_calls-IsBounded_example =
    run_calls-IsBounded (ensure 8 (pos 5) ∷ reserve_units 8 (pos 3) ∷ commit_units 8 (pos 2) ∷ [])
      stock (omega arith, (tt, (tt, tt))) stock-IsBounded

compete_never_oversells_example :
    ((compete 7 (pos 6 ∷ pos 6 ∷ pos 4 ∷ []) stock).0 ≤ℤ available 7 stock)
    × (available 7 (compete 7 (pos 6 ∷ pos 6 ∷ pos 4 ∷ []) stock).1
        ≡ available 7 stock -ℤ (compete 7 (pos 6 ∷ pos 6 ∷ pos 4 ∷ []) stock).0)
compete_never_oversells_example =
    compete_never_oversells 7 (pos 6 ∷ pos 6 ∷ pos 4 ∷ []) stock stock-IsBounded

abbrev calls : List StockCall
calls =
    reserve_units 7 (pos 3)
    ∷ adjust_units 7 (pos 5) (text "restock") none
    ∷ commit_units 7 (pos 3)
    ∷ []

ledger_explains_rows_example :
    get_item 7 (run_calls calls stock) ≡ some (replay 7 (run_calls calls stock).movements item)
unfolding get_item Table.get
ledger_explains_rows_example =
    ledger_explains_rows calls stock 7 item refl refl (tt, (refl, (tt, tt)))

reserve_iff_example :
    ((reserve 7 (pos 4) stock).0 ≡ ok tt)
    ↔ ((pos 1 ≤ℤ pos 4) × (get_item 7 stock ≢ none) × (pos 4 ≤ℤ available 7 stock))
reserve_iff_example = reserve_iff 7 (pos 4) stock

reserved_four : (reserve 7 (pos 4) stock).0 ≡ ok tt
unfolding reserve get_item Table.get item_available ◌-ℤ◌
reserved_four = refl

reserve_effect_example :
    (available 7 (reserve 7 (pos 4) stock).1 ≡ available 7 stock -ℤ pos 4)
    × ((k : ℕ) → k ≢ 7 → get_item k (reserve 7 (pos 4) stock).1 ≡ get_item k stock)
reserve_effect_example = reserve_effect 7 (pos 4) stock reserved_four

release-reserve_example :
    get_item 7 (release 7 (pos 4) (reserve 7 (pos 4) stock).1).1 ≡ get_item 7 stock
release-reserve_example = release-reserve 7 (pos 4) stock stock-IsBounded reserved_four 7

commit_reservation-reserve_example :
    get_item 7 (commit_reservation 7 (pos 4) (reserve 7 (pos 4) stock).1).1
    ≡ some (record item { quantity = pos 10 -ℤ pos 4 })
unfolding get_item Table.get
commit_reservation-reserve_example =
    commit_reservation-reserve 7 (pos 4) stock stock-IsBounded refl reserved_four

adjust_outcome_example :
    (pos 0 ≤ℤ available 7 stock +ℤ negsuc 3
      → available 7 (adjust 7 (negsuc 3) (text "loss") none stock).1
        ≡ available 7 stock +ℤ negsuc 3)
    × (available 7 stock +ℤ negsuc 3 ≤ℤ negsuc 0
        → ((adjust 7 (negsuc 3) (text "loss") none stock).0 ≡ err (plain_error insufficient_stock))
          × (available 7 (adjust 7 (negsuc 3) (text "loss") none stock).1 ≡ available 7 stock))
adjust_outcome_example = adjust_outcome 7 (negsuc 3) (text "loss") none stock stock-IsBounded
