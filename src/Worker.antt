-- ===== src/Worker.antt =====
-- backend/app/worker.py: the job that keeps exchange rates fresh, and the hours of the day at which
-- the arq package runs it.
pub mod Schedule
use neo_store.Currency.{HttpAnswer, CurrencyTables, refresh_rates, fetch}
use neo_store.Prelude.Int.{ℤ, pos, negsuc}
use neo_store.Prelude.{ℕ, List, [], if◌then◌else◌, ◌==◌, suc, ◌+◌, ltb, ◌∷◌, zero}
use neo_store.Prelude.Text.{Text, upper, text}
use neo_store.Exec.{Exec, transaction}

-- `REFRESH_HOURS`, of the configured `exchange_rate_refresh_hours`
abbrev pub refresh_hours : ℤ → ℕ
refresh_hours (pos n) = if n == 0 then 1 else n
refresh_hours (negsuc n) = 1

-- `range(start, 24, step)`, whose step is positive; the fuel bounds the number of its elements.
hours_from : ℕ → ℕ → ℕ → List ℕ
hours_from zero start step = []
hours_from (suc fuel) start step =
    let rest = hours_from fuel (start + step) step in if ltb start 24 then start ∷ rest else []

-- `REFRESH_HOURS_OF_DAY`
unfoldable pub refresh_hours_of_day : ℤ → List ℕ
unfolding hours_from
refresh_hours_of_day configured = hours_from 24 0 (refresh_hours configured)

-- `refresh_exchange_rates`; the argument `default_currency` is the setting, and the provider is the
-- one that `get_exchange_rate_provider` makes.
unfoldable pub refresh_exchange_rates : Text → ℕ → HttpAnswer → Exec CurrencyTables ℕ
refresh_exchange_rates default_currency now answer =
    transaction (λ before after. before)
      (refresh_rates (upper default_currency) (text "open-exchange-rate") now (fetch answer))
