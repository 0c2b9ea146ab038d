-- ===== src/Seed/Rates.antt =====
-- The fallback rates that the seed script writes (backend/app/seed.py, `seed_exchange_rates`).
use neo_store.Currency.Refresh.{rate_of, get_rate-upsert_rate}
use neo_store.Decimal.{Decimal}
use neo_store.Currency.{CurrencyTables, ExchangeRate, upsert_rate, get_rate}
use neo_store.Seed.{fallback_loop, tracked}
use neo_store.Prelude.Text.{Text, text_mem, text, text_eq_refl, upper}
use neo_store.Prelude.{
  sym, Bool, Option, ℕ, List, is_some, All, ◌≡◌, false, true, some, ◌∷◌, ◌+◌, [], arith, none, refl,
  Option-cases, inl, ◌⊎◌, Bool-cases, inr, subst, not, ◌∙◌, ◌||◌, ◌&&◌,
}

has_rate : (o : Option ExchangeRate) → is_some o ≡ is_some (rate_of o)
has_rate none = refl
has_rate (some r) = refl

upsert_rate-kept :
    (base quote q source : Text) (rate : Decimal) (now : ℕ) (t : CurrencyTables)
    → is_some (get_rate t base q) ≡ true
    → is_some (get_rate (upsert_rate base quote rate source now t) base q) ≡ true
upsert_rate-kept base quote q source rate now t h =
    let r = get_rate-upsert_rate base quote rate source now base q t in
    let before = has_rate (get_rate t base q) in
    let after = has_rate (get_rate (upsert_rate base quote rate source now t) base q) in
    ground arith

upsert_rate-written :
    (base quote source : Text) (rate : Decimal) (now : ℕ) (t : CurrencyTables)
    → is_some (get_rate (upsert_rate base quote rate source now t) base quote) ≡ true
upsert_rate-written base quote source rate now t =
    let r = get_rate-upsert_rate base quote rate source now base quote t in
    let after = has_rate (get_rate (upsert_rate base quote rate source now t) base quote) in
    let one = text_eq_refl (upper base) in let two = text_eq_refl (upper quote) in ground arith

-- A tracked currency has a rate from the base.
abbrev pub HasRate : Text → CurrencyTables → Text × Decimal → Type 0
HasRate base t entry =
    text_mem entry.0 (tracked base) ≡ true → is_some (get_rate t base entry.0) ≡ true

module _ (refresh : Bool) (base : Text) (now : ℕ) where
  abbrev with_fallback : Text → Decimal → CurrencyTables → CurrencyTables
  with_fallback quote rate t = upsert_rate base quote rate (text "seed-fallback") now t

  -- The rest of the loop runs on the table as it is, for a quote that is not tracked or has a rate,
  -- or on the table with the rate written.
  fallback_loop_step :
      (quote : Text) (rate : Decimal) (rest : List (Text × Decimal)) (n : ℕ) (t : CurrencyTables)
      → ((fallback_loop refresh base now ((quote, rate) ∷ rest) n t
            ≡ fallback_loop refresh base now rest n t)
          × HasRate base t (quote, rate))
        ⊎ (fallback_loop refresh base now ((quote, rate) ∷ rest) n t
            ≡ fallback_loop refresh base now rest (n + 1) (with_fallback quote rate t))
  unfolding fallback_loop
  fallback_loop_step quote rate rest n t =
      elim (Bool-cases
        (not (text_mem quote (tracked base)) || (is_some (get_rate t base quote) && not refresh))) [
          | inl e ↦ inl (rw (fallback_loop, e) refl, λ h. ground arith)
          | inr e ↦ inr (rw (fallback_loop, e) refl)
        ]

  fallback_loop-kept :
      (q : Text) (rates : List (Text × Decimal)) (n : ℕ) (t : CurrencyTables)
      → is_some (get_rate t base q) ≡ true
      → is_some (get_rate (fallback_loop refresh base now rates n t).1 base q) ≡ true
  unfolding fallback_loop
  fallback_loop-kept q [] n t h = h
  fallback_loop-kept q ((quote, rate) ∷ rest) n t h =
      elim (fallback_loop_step quote rate rest n t) [
        | inl (e, present) ↦ rw e (fallback_loop-kept q rest n t h)
        | inr e ↦ rw e (
            fallback_loop-kept q rest (n + 1) (with_fallback quote rate t)
              (upsert_rate-kept base quote q (text "seed-fallback") rate now t h))
      ]

  pub fallback_loop-HasRate :
      (rates : List (Text × Decimal)) (n : ℕ) (t : CurrencyTables)
      → All (HasRate base (fallback_loop refresh base now rates n t).1) rates
  fallback_loop-HasRate [] n t = tt
  fallback_loop-HasRate ((quote, rate) ∷ rest) n t =
      let full = (quote, rate) ∷ rest in
      elim (fallback_loop_step quote rate rest n t) [
        | inl (e, present) ↦
            subst (λ r. All (HasRate base r.1) full) (sym e)
              (λ h. fallback_loop-kept quote rest n t (present h), fallback_loop-HasRate rest n t)
        | inr e ↦
            let t' = with_fallback quote rate t in
            let written = upsert_rate-written base quote (text "seed-fallback") rate now t in
            subst (λ r. All (HasRate base r.1) full) (sym e)
              (
                λ h. fallback_loop-kept quote rest (n + 1) t' written,
                fallback_loop-HasRate rest (n + 1) t',
              )
      ]

  upsert_rate-currencies :
      (quote source : Text) (rate : Decimal) (t : CurrencyTables)
      → (upsert_rate base quote rate source now t).currencies ≡ t.currencies
  unfolding upsert_rate
  upsert_rate-currencies quote source rate t = elim (Option-cases (get_rate t base quote)) [
    | inl e ↦ rw (upsert_rate, e) refl
    | inr (r, e) ↦ rw (upsert_rate, e) refl
  ]

  -- The currencies are left alone.
  pub fallback_loop-currencies :
      (rates : List (Text × Decimal)) (n : ℕ) (t : CurrencyTables)
      → (fallback_loop refresh base now rates n t).1.currencies ≡ t.currencies
  unfolding fallback_loop
  fallback_loop-currencies [] n t = refl
  fallback_loop-currencies ((quote, rate) ∷ rest) n t =
      elim (fallback_loop_step quote rate rest n t) [
        | inl (e, present) ↦ rw e (fallback_loop-currencies rest n t)
        | inr e ↦
            rw e (fallback_loop-currencies rest (n + 1) (with_fallback quote rate t))
            ∙ upsert_rate-currencies quote (text "seed-fallback") rate t
      ]

-- Where each tracked currency has a rate, and rates are not refreshed, nothing is written.
pub fallback_loop_same :
    (base : Text) (now : ℕ) (rates : List (Text × Decimal)) (n : ℕ) (t : CurrencyTables)
    → All (HasRate base t) rates
    → fallback_loop false base now rates n t ≡ (n, t)
unfolding fallback_loop
fallback_loop_same base now [] n t h = refl
fallback_loop_same base now ((quote, rate) ∷ rest) n t h =
    let here = h.0 in let ih = fallback_loop_same base now rest n t h.1 in ground arith
