-- ===== src/Inventory/Calls.antt =====
-- Sequences of calls of the inventory service, as the row locks order them.
use neo_store.Prelude.{ℕ, ◌≡◌, Option, List, [], ◌∷◌, All, arith}
use neo_store.Prelude.Int.{negsuc, ℤ, pos, ◌+ℤ◌, ◌-ℤ◌, ◌≤ℤ◌, int_laws}
use neo_store.Prelude.Text.{Text}
use neo_store.Result.{Result, ok, err}
use neo_store.Inventory.{
  Stock, item_available, available, ensure_item, reserve, release, commit_reservation, adjust,
}
use neo_store.Inventory.Bounds.{
  IsBounded, ensure_item-IsBounded, reserve-IsBounded, release-IsBounded,
  commit_reservation-IsBounded, adjust-IsBounded,
}
use neo_store.Inventory.Effects.{reserve_effect, reserve_raises}

-- One call with its arguments.
pub data StockCall : Type 0 where
  ensure reserve_units release_units commit_units : ℕ → ℤ → StockCall
  adjust_units : ℕ → ℤ → Text → Option Text → StockCall

-- The stock after a call, whether it returned or raised.
unfoldable pub run_call : StockCall → Stock → Stock
run_call (ensure v q) s = (ensure_item v q s).1
run_call (reserve_units v q) s = (reserve v q s).1
run_call (release_units v q) s = (release v q s).1
run_call (commit_units v q) s = (commit_reservation v q s).1
run_call (adjust_units v d reason remark) s = (adjust v d reason remark s).1

unfoldable pub run_calls : List StockCall → Stock → Stock
run_calls [] s = s
run_calls (c ∷ cs) s = run_calls cs (run_call c s)

-- The call makes no row with a negative quantity.
abbrev pub IsSupplying : StockCall → Type 0
IsSupplying (ensure v q) = pos 0 ≤ℤ q
IsSupplying _ = Unit

pub run_call-IsBounded :
    (c : StockCall) (s : Stock) → IsSupplying c → IsBounded s → IsBounded (run_call c s)
unfolding run_call
run_call-IsBounded (ensure v (pos n)) s p h = ensure_item-IsBounded v n s h
run_call-IsBounded (ensure v (negsuc n)) s p h = absurd (omega (arith, p))
run_call-IsBounded (reserve_units v q) s p h = reserve-IsBounded v q s h
run_call-IsBounded (release_units v q) s p h = release-IsBounded v q s h
run_call-IsBounded (commit_units v q) s p h = commit_reservation-IsBounded v q s h
run_call-IsBounded (adjust_units v d reason remark) s p h = adjust-IsBounded v d reason remark s h

-- After any sequence of calls, failing or not, of which none makes a row with a negative quantity,
-- every row has 0 ≤ reserved ≤ quantity, if that held before.
pub run_calls-IsBounded :
    (cs : List StockCall) (s : Stock)
    → All IsSupplying cs
    → IsBounded s
    → IsBounded (run_calls cs s)
unfolding run_calls
run_calls-IsBounded [] s p h = h
run_calls-IsBounded (c ∷ cs) s p h =
    run_calls-IsBounded cs (run_call c s) p.1 (run_call-IsBounded c s p.0 h)

-- Competing reservations of one variant, in the order in which they get its row lock: the units
-- granted, and the stock that is left.
abbrev granted : ℤ → Result (Unit {0}) → ℤ
granted q (ok done) = q
granted q (err e) = pos 0

unfoldable pub compete : ℕ → List ℤ → Stock → ℤ × Stock
compete v [] s = (pos 0, s)
compete v (q ∷ qs) s =
    let (r, s') = reserve v q s in let (total, t) = compete v qs s' in (granted q r +ℤ total, t)

available-compete :
    (v : ℕ) (qs : List ℤ) (s : Stock)
    → available v (compete v qs s).1 ≡ available v s -ℤ (compete v qs s).0
unfolding compete
available-compete v [] s = omega int_laws
available-compete v (q ∷ qs) s =
    grind (
      int_laws,
      available-compete v qs (reserve v q s).1,
      reserve_effect v q s,
      reserve_raises v q s,
    )

compete-IsBounded : (v : ℕ) (qs : List ℤ) (s : Stock) → IsBounded s → IsBounded (compete v qs s).1
unfolding compete
compete-IsBounded v [] s h = h
compete-IsBounded v (q ∷ qs) s h =
    compete-IsBounded v qs (reserve v q s).1 (reserve-IsBounded v q s h)

available_nonneg : (v : ℕ) (s : Stock) → IsBounded s → pos 0 ≤ℤ available v s
unfolding available item_available
available_nonneg v s h = grind (int_laws, h.at_key)

-- Competing reservations never get more, together, than was available before them; what they got
-- is exactly what availability fell by.
pub compete_never_oversells :
    (v : ℕ) (qs : List ℤ) (s : Stock)
    → IsBounded s
    → let (total, t) = compete v qs s in
      (total ≤ℤ available v s) × (available v t ≡ available v s -ℤ total)
compete_never_oversells v qs s h = (
  grind (
    int_laws,
    available-compete v qs s,
    available_nonneg v (compete v qs s).1 (compete-IsBounded v qs s h),
  ),
  available-compete v qs s,
)
