-- ===== src/Currency/Money.antt =====
-- Rounding of money: `round_money` of backend/app/domain/currency/money.py.
use neo_store.Result.{ok}
use neo_store.Decimal.Laws.{
  Fits, fixed, quantize-fixed, quantize_shape, eq_fixed, quantize_nearest, quantize_sign,
}
use neo_store.Prelude.Int.{ℤ, neg_part, pos_part}
use neo_store.Prelude.{Option, ℕ, ◌<◌, some, ◌≡◌, none, ◌^◌, ◌-◌, ◌*◌, ◌≤◌, ◌+◌}
use neo_store.Decimal.{Decimal, abs}
use neo_store.Prelude.Text.{Text}
use neo_store.Currency.{round_money, default_decimal_places}

abbrev places_of : Text → Option ℕ → ℕ
places_of code none = default_decimal_places code
places_of code (some places) = places

-- Rounding an amount that is finer than the currency gives the nearest amount of the currency's
-- precision, with a tie away from zero: the magnitude is rounded so, and a positive amount never
-- becomes negative, nor a negative one positive; the result has that precision exactly.
pub round_money_nearest :
    (amount r : Decimal) (code : Text) (places : Option ℕ)
    → places_of code places < amount.places
    → round_money amount code places ≡ ok r
    → let unit = 10 ^ (amount.places - places_of code places) in
      (r.places ≡ places_of code places)
      × (2 * (abs r.coeff * unit) ≤ 2 * abs amount.coeff + unit)
      × (2 * abs amount.coeff < 2 * (abs r.coeff * unit) + unit)
      × (neg_part amount.coeff ≡ 0 → neg_part r.coeff ≡ 0)
      × (pos_part amount.coeff ≡ 0 → pos_part r.coeff ≡ 0)
unfolding round_money
round_money_nearest amount r code none h e =
    let (low, high) = quantize_nearest amount r (default_decimal_places code) h e in
    let (positive, negative) = quantize_sign amount r (default_decimal_places code) h e in
    ((quantize_shape amount r (default_decimal_places code) e).0, low, high, positive, negative)
round_money_nearest amount r code (some places) h e =
    let (low, high) = quantize_nearest amount r places h e in
    let (positive, negative) = quantize_sign amount r places h e in
    ((quantize_shape amount r places e).0, low, high, positive, negative)

pub round_money_shape :
    (amount r : Decimal) (code : Text) (p : ℕ)
    → round_money amount code (some p) ≡ ok r
    → (r ≡ fixed p r.coeff) × Fits r
unfolding round_money
round_money_shape amount r code p e =
    let (places, fits) = quantize_shape amount r p e in (eq_fixed r p places, fits)

pub round_money-fixed :
    (code : Text) (p : ℕ) (c : ℤ)
    → Fits (fixed p c)
    → round_money (fixed p c) code (some p) ≡ ok (fixed p c)
unfolding round_money
round_money-fixed code p c h = quantize-fixed p c h

-- Rounding an amount twice is rounding it once.
pub round_money_idem :
    (amount r : Decimal) (code : Text) (p : ℕ)
    → round_money amount code (some p) ≡ ok r
    → round_money r code (some p) ≡ ok r
round_money_idem amount r code p e =
    let (shape, fits) = round_money_shape amount r code p e in
    rw shape (round_money-fixed code p r.coeff fits)
