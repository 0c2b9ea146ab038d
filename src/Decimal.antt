-- ===== src/Decimal.antt =====
-- Python's `decimal`, as far as the program calls it, in its default context: 28 significant
-- digits, results rounded half to even, and `quantize` with ROUND_HALF_UP. A decimal is an integer
-- over a power of ten; trailing zeros and the sign of zero are not told apart, as no amount
-- depends on them. Numbers whose exponent is positive are written out.
pub mod Laws
use neo_store.Prelude.{
  ℕ, zero, suc, ◌+◌, ◌-◌, ◌*◌, ◌/◌, ◌%◌, ◌^◌, Bool, ltb, leb, ◌==◌, if◌then◌else◌, true, false,
}
use neo_store.Prelude.Int.{ℤ, pos, negsuc, ◌+ℤ◌, ◌*ℤ◌, leb_ℤ, pos_part, neg_part, sub_ℕ}
use neo_store.Errors.{Exception, invalid_operation}
use neo_store.Result.{Result, ok, err}

-- The value coeff / 10 ^ places.
pub record Decimal : Type 0 where
  pub coeff : ℤ
  pub places : ℕ

-- `Decimal(n)`
abbrev pub of_int : ℤ → Decimal
of_int n = record { coeff = n; places = 0 }

abbrev pub abs : ℤ → ℕ
abs n = pos_part n + neg_part n

-- The number of magnitude m with the sign of n.
unfoldable pub with_sign : ℤ → ℕ → ℤ
with_sign (pos n) m = pos m
with_sign (negsuc n) m = sub_ℕ 0 m

-- n / d to the nearest whole number, a tie away from zero.
unfoldable pub half_up : ℕ → ℕ → ℕ
half_up n d = (2 * n + d) / (2 * d)

-- n / d to the nearest whole number, a tie to the even one.
unfoldable pub half_even : ℕ → ℕ → ℕ
half_even n d =
    let q = n / d in
    let twice_rest = 2 * (n % d) in
    if ltb twice_rest d
    then q
    else if ltb d twice_rest
    then q + 1
    else if q % 2 == 0
    then q
    else q + 1

-- Coefficients below this have 28 digits at most.
abbrev pub precision_limit : ℕ
precision_limit = 10 ^ 28

-- The number of digits by which m is too long. The fuel is m itself, more than m has digits.
excess : ℕ → ℕ → ℕ
excess zero m = 0
excess (suc fuel) m = elim (ltb m precision_limit) [ true ↦ 0 | false ↦ suc (excess fuel (m / 10)) ]

shorten : Decimal → Decimal
unfolding excess half_even with_sign
shorten d =
    let m = abs d.coeff in
    let drop = excess m m in
    record {
      coeff = with_sign d.coeff (half_even m (10 ^ drop) * 10 ^ (drop - d.places));
      places = d.places - drop;
    }

-- The context's rounding of an exact result.
unfoldable pub context : Decimal → Decimal
unfolding shorten
context d = if ltb (abs d.coeff) precision_limit then d else shorten d

-- The coefficient at p decimal places, for a number with no more places than that.
abbrev pub scaled : Decimal → ℕ → ℤ
scaled d p = d.coeff *ℤ pos (10 ^ (p - d.places))

abbrev pub max_places : Decimal → Decimal → ℕ
max_places a b = if ltb a.places b.places then b.places else a.places

-- `a + b`
unfoldable pub add : Decimal → Decimal → Decimal
add a b =
    let p = max_places a b in context (record { coeff = scaled a p +ℤ scaled b p; places = p })

-- `a * b`
unfoldable pub mul : Decimal → Decimal → Decimal
mul a b = context (record { coeff = a.coeff *ℤ b.coeff; places = a.places + b.places })

digit_count : ℕ → ℕ → ℕ
digit_count zero m = 1
digit_count (suc fuel) m = elim (ltb m 10) [ true ↦ 1 | false ↦ suc (digit_count fuel (m / 10)) ]

-- The quotient of two magnitudes, a last digit 0 or 5 raised by one where a remainder is left, so
-- that the context's rounding sees that it is not a tie.
sticky_quotient : ℕ → ℕ → ℕ
sticky_quotient n d = if n % d == 0 then n / d else if (n / d) % 5 == 0 then n / d + 1 else n / d

abbrev same_sign : ℤ → ℤ → Bool
same_sign a b = leb_ℤ (pos 0) (a *ℤ b)

-- `a / b`, for b other than zero
unfoldable pub div : Decimal → Decimal → Decimal
unfolding digit_count sticky_quotient
div a b =
    let m = abs a.coeff in
    let n = abs b.coeff in
    let shift = digit_count n n + 29 - digit_count m m in
    let back = digit_count m m - (digit_count n n + 29) in
    let q = sticky_quotient (m * 10 ^ shift) (n * 10 ^ back) in
    let up = (b.places + back) - (a.places + shift) in
    context (record {
      coeff = (if same_sign a.coeff b.coeff then pos (q * 10 ^ up) else sub_ℕ 0 (q * 10 ^ up));
      places = (a.places + shift) - (b.places + back);
    })

-- `a <= b`
unfoldable pub leb_decimal : Decimal → Decimal → Bool
leb_decimal a b = let p = max_places a b in leb_ℤ (scaled a p) (scaled b p)

-- `d == 0`
abbrev pub is_zero : Decimal → Bool
is_zero d = abs d.coeff == 0

quantized : Decimal → ℕ → ℤ
unfolding half_up with_sign
quantized d p =
    if leb d.places p
    then scaled d p
    else with_sign d.coeff (half_up (abs d.coeff) (10 ^ (d.places - p)))

-- `d.quantize(Decimal(1).scaleb(-p), rounding=ROUND_HALF_UP)`
unfoldable pub quantize : Decimal → ℕ → Result Decimal
unfolding quantized
quantize d p =
    let c = quantized d p in
    if ltb (abs c) precision_limit
    then ok (record { coeff = c; places = p })
    else err invalid_operation
