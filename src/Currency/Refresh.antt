-- ===== src/Currency/Refresh.antt =====
-- What a refresh of the exchange rates writes: `upsert_rate` and `refresh_rates`.
use neo_store.Result.{ok, err}
use neo_store.Errors.{Exception}
use neo_store.Decimal.{Decimal}
use neo_store.Currency.{
  ExchangeRate, update_rate, is_pair, upsert_rate, CurrencyTables, get_rate, get_currency,
  refresh_loop, refresh_rates,
}
use neo_store.Prelude.{
  Option, ℕ, some, none, List, find, ◌≢◌, ◌≡◌, if◌then◌else◌, ◌&&◌, ◌∷◌, arith, [], refl, true,
  Bool, ◌++◌, not, is_some, Option-cases, inl, inr, ◌+◌, ◌∙◌,
}
use neo_store.Prelude.Text.{Text, text_eq, text_eq_iff, upper, text_eq_refl, upper_idem}

-- The stored rate of a pair.
abbrev pub rate_of : Option ExchangeRate → Option Decimal
rate_of none = none
rate_of (some r) = some r.rate

module _ (base quote : Text) (rate : Decimal) (source : Text) (now : ℕ) where
  find-update_rate :
      (b q : Text) (rs : List ExchangeRate)
      → find (is_pair base quote) rs ≢ none
      → rate_of (find (is_pair b q) (update_rate base quote rate source now rs))
        ≡ (if text_eq base b && text_eq quote q then some rate else rate_of (find (is_pair b q) rs))
  unfolding update_rate
  find-update_rate b q [] h = absurd (h refl)
  find-update_rate b q (r ∷ rs) h = ground (
    arith,
    find-update_rate b q rs,
    text_eq_iff r.base_code base,
    text_eq_iff r.quote_code quote,
    text_eq_iff r.base_code b,
    text_eq_iff r.quote_code q,
    text_eq_iff base b,
    text_eq_iff quote q,
  )

  find-insert_rate :
      (b q : Text) (rs : List ExchangeRate) (row : ExchangeRate)
      → find (is_pair base quote) rs ≡ none
      → is_pair base quote row ≡ true
      → row.rate ≡ rate
      → rate_of (find (is_pair b q) (rs ++ row ∷ []))
        ≡ (if text_eq base b && text_eq quote q then some rate else rate_of (find (is_pair b q) rs))
  find-insert_rate b q [] row h p e = ground (
    arith,
    text_eq_iff row.base_code base,
    text_eq_iff row.quote_code quote,
    text_eq_iff row.base_code b,
    text_eq_iff row.quote_code q,
    text_eq_iff base b,
    text_eq_iff quote q,
  )
  find-insert_rate b q (r ∷ rs) row h p e = ground (
    arith,
    find-insert_rate b q rs row,
    text_eq_iff r.base_code base,
    text_eq_iff r.quote_code quote,
    text_eq_iff r.base_code b,
    text_eq_iff r.quote_code q,
    text_eq_iff base b,
    text_eq_iff quote q,
  )

module _ (base quote : Text) (rate : Decimal) (source : Text) (now : ℕ) where
  -- After an upsert the pair has the new rate, and every other pair the rate that it had.
  pub get_rate-upsert_rate :
      (b q : Text) (t : CurrencyTables)
      → rate_of (get_rate (upsert_rate base quote rate source now t) b q) ≡ (
          if text_eq (upper base) (upper b) && text_eq (upper quote) (upper q)
          then some rate
          else rate_of (get_rate t b q))
  unfolding upsert_rate get_rate
  get_rate-upsert_rate b q t =
      elim (Option-cases (find (is_pair (upper base) (upper quote)) t.rates)) [
        | inl e ↦ ground (
          arith,
          find-insert_rate (upper base) (upper quote) rate source now (upper b) (upper q) t.rates
              (record {
                base_code = upper base;
                quote_code = upper quote;
                rate = rate;
                source = source;
                fetched_at = now;
              })
              e (rw (text_eq_refl (upper base), text_eq_refl (upper quote))) refl,
        )
        | inr (r, e) ↦ ground (
          arith,
          find-update_rate (upper base) (upper quote) rate source now (upper b) (upper q) t.rates,
        )
      ]

  get_currency-upsert_rate :
      (c : Text) (t : CurrencyTables)
      → get_currency (upsert_rate base quote rate source now t) c ≡ get_currency t c
  unfolding upsert_rate get_currency
  get_currency-upsert_rate c t = ground arith

-- The rate that the answer of a provider leaves for the currency `q`: the last one that it lists,
-- or else the old one.
abbrev pub latest : Text → List (Text × Decimal) → Option Decimal → Option Decimal
latest q [] old = old
latest q ((c, r) ∷ rest) old = latest q rest (if text_eq (upper c) q then some r else old)

-- A currency gets a rate if it is stored and is not the base itself.
abbrev pub is_tracked : CurrencyTables → Text → Text → Bool
is_tracked t base q = not (text_eq (upper q) (upper base)) && is_some (get_currency t (upper q))

refresh_loop-rate :
    (base source : Text) (now : ℕ) (b q : Text) (rates : List (Text × Decimal)) (n : ℕ)
    (t : CurrencyTables)
    → rate_of (get_rate (refresh_loop (upper base) source now rates n t).1 b q) ≡ (
        if text_eq (upper base) (upper b) && is_tracked t base q
        then latest (upper q) rates (rate_of (get_rate t b q))
        else rate_of (get_rate t b q))
unfolding refresh_loop
refresh_loop-rate base source now b q [] n t = ground arith
refresh_loop-rate base source now b q ((c, r) ∷ rest) n t = ground (
  arith,
  text_eq_iff (upper c) (upper q),
  text_eq_iff (upper c) (upper base),
  text_eq_iff (upper base) (upper b),
  upper_idem base,
  upper_idem c,
  get_rate-upsert_rate (upper base) (upper c) r source now b q t,
  get_currency-upsert_rate (upper base) (upper c) r source now (upper q) t,
  refresh_loop-rate base source now b q rest n t,
  refresh_loop-rate base source now b q rest (n + 1)
      (upsert_rate (upper base) (upper c) r source now t),
)

-- A refresh whose provider raised leaves the tables alone. Otherwise a pair (b, q) ends with the
-- last rate that the provider lists for q, if b is the base and q is another stored currency that
-- is listed, and with the rate that it had in every other case.
pub refresh_rates_effect :
    (base source : Text) (now : ℕ) (t : CurrencyTables)
    → ((e : Exception) → refresh_rates base source now (err e) t ≡ (err e, t))
      × ((rates : List (Text × Decimal)) (b q : Text)
          → rate_of (get_rate (refresh_rates base source now (ok rates) t).1 b q) ≡ (
              if text_eq (upper base) (upper b) && is_tracked t base q
              then latest (upper q) rates (rate_of (get_rate t b q))
              else rate_of (get_rate t b q)))
unfolding refresh_rates
refresh_rates_effect base source now t =
    (λ e. refl, λ rates b q. refresh_loop-rate base source now b q rates 0 t)

-- How many of the provider's entries are for tracked currencies.
abbrev pub tracked_count : CurrencyTables → Text → List (Text × Decimal) → ℕ
tracked_count t base [] = 0
tracked_count t base ((c, r) ∷ rest) =
    (if is_tracked t base c then 1 else 0) + tracked_count t base rest

refresh_loop-count :
    (base source : Text) (now : ℕ) (rates : List (Text × Decimal)) (n : ℕ) (t t' : CurrencyTables)
    → ((c : Text) → get_currency t' c ≡ get_currency t c)
    → (refresh_loop (upper base) source now rates n t').0 ≡ n + tracked_count t base rates
unfolding refresh_loop
refresh_loop-count base source now [] n t t' same = omega arith
refresh_loop-count base source now ((c, r) ∷ rest) n t t' same = ground (
  arith,
  same (upper c),
  refresh_loop-count base source now rest n t t' same,
  refresh_loop-count base source now rest (n + 1) t
      (upsert_rate (upper base) (upper c) r source now t')
      (λ d. get_currency-upsert_rate (upper base) (upper c) r source now d t' ∙ same d),
)

-- The count that a refresh returns is the number of entries for stored currencies other than the
-- base.
pub refresh_rates_count :
    (base source : Text) (now : ℕ) (rates : List (Text × Decimal)) (t : CurrencyTables)
    → (refresh_rates base source now (ok rates) t).0 ≡ ok (tracked_count t base rates)
unfolding refresh_rates
refresh_rates_count base source now rates t =
    ground (arith, refresh_loop-count base source now rates 0 t t (λ c. refl))
