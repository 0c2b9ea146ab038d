-- ===== src/Worker/Schedule.antt =====
-- When the job runs (backend/app/worker.py, `REFRESH_HOURS_OF_DAY`).
use neo_store.Prelude.Int.{pos, negsuc}
use neo_store.Worker.{hours_from, refresh_hours_of_day, refresh_hours}
use neo_store.Prelude.{
  refl, ℕ, ◌<◌, List, arith, ◌≤◌, ◌+◌, ◌∷◌, Bool-cases, suc, ◌≡◌, [], ltb, inl, inr, zero, ◌⊎◌,
  subst,
}

-- Every `step` hours from `start` to the end of the day.
abbrev pub IsEvery : ℕ → ℕ → List ℕ → Type 0
IsEvery step start [] = 24 ≤ start
IsEvery step start (hour ∷ hours) =
    (hour ≡ start) × (start < 24) × IsEvery step (start + step) hours

-- The hour `h` is one of the hours or less than `step` hours after one.
abbrev pub IsCovered : ℕ → ℕ → List ℕ → Type 0
IsCovered step h [] = ⊥
IsCovered step h (hour ∷ hours) = ((hour ≤ h) × (h < hour + step)) ⊎ IsCovered step h hours

hours_from-IsEvery :
    (fuel start step : ℕ)
    → 0 < step
    → 24 ≤ start + fuel
    → IsEvery step start (hours_from fuel start step)
unfolding hours_from
hours_from-IsEvery zero start step p enough = omega arith
hours_from-IsEvery (suc fuel) start step p enough = elim (Bool-cases (ltb start 24)) [
  | inl e ↦ rw e (refl, ground arith, hours_from-IsEvery fuel (start + step) step p (omega arith))
  | inr e ↦ rw e (ground arith)
]

IsEvery-IsCovered :
    (step start h : ℕ) (hours : List ℕ)
    → IsEvery step start hours
    → start ≤ h
    → h < 24
    → IsCovered step h hours
IsEvery-IsCovered step start h [] every from until = omega arith
IsEvery-IsCovered step start h (hour ∷ hours) every from until =
    elim (Bool-cases (ltb h (start + step))) [
      | inl e ↦ inl (ground (arith, every.0), ground (arith, every.0))
      | inr e ↦ inr (IsEvery-IsCovered step (start + step) h hours every.2 (ground arith) until)
    ]

-- The hours are every `step` ones from midnight to the end of the day, and at each hour of the day
-- the last of them is less than `step` hours ago.
abbrev pub RunsEvery : ℕ → List ℕ → Type 0
RunsEvery step hours = IsEvery step 0 hours × ((h : ℕ) → h < 24 → IsCovered step h hours)

hours_from-RunsEvery : (step : ℕ) → 0 < step → RunsEvery step (hours_from 24 0 step)
hours_from-RunsEvery step positive =
    let every = hours_from-IsEvery 24 0 step positive (omega arith) in
    (every, λ h until. IsEvery-IsCovered step 0 h (hours_from 24 0 step) every (omega arith) until)

refresh_hours-suc : (n : ℕ) → refresh_hours (pos (suc n)) ≡ suc n
refresh_hours-suc n = ground arith

-- A configured interval of one hour or more makes the job run at midnight and then that many hours
-- apart to the end of the day, so that at each hour of the day its last run of that day is less than
-- the interval ago; an interval of zero or below makes it run at each of the 24 hours.
pub refresh_hours_of_day_lem :
    ((n : ℕ) → RunsEvery (suc n) (refresh_hours_of_day (pos (suc n))))
    × RunsEvery 1 (refresh_hours_of_day (pos 0))
    × ((n : ℕ) → RunsEvery 1 (refresh_hours_of_day (negsuc n)))
unfolding refresh_hours_of_day
refresh_hours_of_day_lem = (
  λ n.
      subst (λ step. RunsEvery step (refresh_hours_of_day (pos (suc n)))) (refresh_hours-suc n)
        (hours_from-RunsEvery (refresh_hours (pos (suc n))) (ground arith)),
  hours_from-RunsEvery 1 (omega arith),
  λ n. hours_from-RunsEvery 1 (omega arith),
)
