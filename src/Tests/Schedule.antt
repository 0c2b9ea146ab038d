-- ===== src/Tests/Schedule.antt =====
-- Witnesses for the schedule of the worker.
use neo_store.Prelude.{◌≡◌, ◌∷◌, [], refl, length}
use neo_store.Prelude.Int.{pos}
use neo_store.Worker.{refresh_hours_of_day}

every_nine_hours : refresh_hours_of_day (pos 9) ≡ 0 ∷ 9 ∷ 18 ∷ []
unfolding refresh_hours_of_day
every_nine_hours = refl

zero_is_hourly : length (refresh_hours_of_day (pos 0)) ≡ 24
unfolding refresh_hours_of_day
zero_is_hourly = refl
