-- ===== src/Decimal/Laws.antt =====
-- Decimal arithmetic is exact while the result has at most 28 digits, and `quantize` gives the
use mathlib.Core.Path.{ap₂, ◌∙◌}
-- nearest value with the asked number of places.
use native.Mathlib.Nat.{sub_self, one-le-pow}
use Prim.Native.Nat.pow
use neo_store.Result.{ok}
use neo_store.Prelude.{ℕ, ◌≡◌, arith, ◌<◌, ◌*◌, ◌^◌, ◌≤◌, ◌+◌, ◌-◌, ap, refl}
use neo_store.Prelude.Int.{
  ◌*ℤ◌, ◌+ℤ◌, ℤ, eq_of_parts, pos, zero-mul, zero-add, neg_part, pos_part, negsuc,
}
use neo_store.Decimal.{
  add, quantize, half_up, Decimal, context, abs, scaled, of_int, precision_limit, mul, with_sign,
}

-- The coefficient has 28 digits at most.
abbrev pub Fits : Decimal → Type 0
Fits d = abs d.coeff < precision_limit

pub context_exact : (d : Decimal) → Fits d → context d ≡ d
unfolding context
context_exact d h = ground arith

-- The number with coefficient c and p places.
abbrev pub fixed : ℕ → ℤ → Decimal
fixed p c = record { coeff = c; places = p }

-- A number is the fixed one of its own coefficient and places.
pub eq_fixed : (d : Decimal) (p : ℕ) → d.places ≡ p → d ≡ fixed p d.coeff
eq_fixed d p h = cc

scaled-fixed : (p : ℕ) (c : ℤ) → scaled (fixed p c) p ≡ c
scaled-fixed p c = rw (sub_self, pow.zero) (eq_of_parts _ _ (unfold ◌*ℤ◌ in ground arith))

-- Amounts with the same number of places add up exactly, if the sum has at most 28 digits.
pub add-fixed :
    (p : ℕ) (a b : ℤ) → Fits (fixed p (a +ℤ b)) → add (fixed p a) (fixed p b) ≡ fixed p (a +ℤ b)
unfolding add
add-fixed p a b h =
    ground (arith, scaled-fixed p a, scaled-fixed p b, context_exact (fixed p (a +ℤ b)) h)

pub quantize-fixed : (p : ℕ) (c : ℤ) → Fits (fixed p c) → quantize (fixed p c) p ≡ ok (fixed p c)
unfolding quantize
quantize-fixed p c h = ground (arith, scaled-fixed p c)

pub quantize_shape : (d r : Decimal) (p : ℕ) → quantize d p ≡ ok r → (r.places ≡ p) × Fits r
unfolding quantize
quantize_shape d r p h = ground arith

-- Twice the magnitude n / d lies within one of twice its rounding; a tie is rounded up.
pub half_up_nearest :
    (n d : ℕ) → 0 < d → (2 * (half_up n d * d) ≤ 2 * n + d) × (2 * n < 2 * (half_up n d * d) + d)
unfolding half_up
half_up_nearest n d h = grind arith

abs-with_sign : (c : ℤ) (m : ℕ) → abs (with_sign c m) ≡ m
unfolding with_sign
abs-with_sign c m = ground arith

-- A number with more places than p is quantized to the nearest one with p places, and a tie goes
-- away from zero.
pub quantize_nearest :
    (d r : Decimal) (p : ℕ)
    → p < d.places
    → quantize d p ≡ ok r
    → let unit = 10 ^ (d.places - p) in
      (2 * (abs r.coeff * unit) ≤ 2 * abs d.coeff + unit)
      × (2 * abs d.coeff < 2 * (abs r.coeff * unit) + unit)
unfolding quantize
quantize_nearest d r p h e = ground (
  arith,
  one-le-pow (d.places - p) 10 (omega arith),
  half_up_nearest (abs d.coeff) (10 ^ (d.places - p)),
  abs-with_sign d.coeff (half_up (abs d.coeff) (10 ^ (d.places - p))),
)

-- Zero is rounded to zero.
half_up-zero : (d : ℕ) → 0 < d → half_up 0 d ≡ 0
unfolding half_up
half_up-zero d h = grind arith

with_sign_parts :
    (c : ℤ) (d : ℕ)
    → 0 < d
    → (neg_part c ≡ 0 → neg_part (with_sign c (half_up (abs c) d)) ≡ 0)
      × (pos_part c ≡ 0 → pos_part (with_sign c (half_up (abs c) d)) ≡ 0)
unfolding with_sign
with_sign_parts (pos n) d h =
    (λ e. refl, λ e. ap (λ k. half_up k d) (omega (arith, e)) ∙ half_up-zero d h)
with_sign_parts (negsuc n) d h = (λ e. ground arith, λ e. ground arith)

-- Quantizing a number with more places than p turns no sign around.
pub quantize_sign :
    (d r : Decimal) (p : ℕ)
    → p < d.places
    → quantize d p ≡ ok r
    → (neg_part d.coeff ≡ 0 → neg_part r.coeff ≡ 0) × (pos_part d.coeff ≡ 0 → pos_part r.coeff ≡ 0)
unfolding quantize
quantize_sign d r p h e =
    let parts =
      with_sign_parts d.coeff (10 ^ (d.places - p)) (one-le-pow (d.places - p) 10 (omega arith)) in
    ground arith

-- An amount times a whole number keeps its places.
pub mul-fixed_int :
    (p : ℕ) (a n : ℤ) → Fits (fixed p (a *ℤ n)) → mul (fixed p a) (of_int n) ≡ fixed p (a *ℤ n)
unfolding mul
mul-fixed_int p a n h = ground (arith, context_exact (fixed p (a *ℤ n)) h)

pub add_shaped :
    (p : ℕ) (a b : Decimal)
    → a ≡ fixed p a.coeff
    → b ≡ fixed p b.coeff
    → Fits (fixed p (a.coeff +ℤ b.coeff))
    → add a b ≡ fixed p (a.coeff +ℤ b.coeff)
add_shaped p a b ha hb h = ap₂ add ha hb ∙ add-fixed p a.coeff b.coeff h

-- Zero without places added to an amount.
pub add-zero_left :
    (p : ℕ) (c : ℤ) → Fits (fixed p c) → add (of_int (pos 0)) (fixed p c) ≡ fixed p c
unfolding add
add-zero_left p c h = ground (
  arith,
  zero-mul (10 ^ (p - 0)),
  zero-mul (10 ^ (0 - 0)),
  zero-add c,
  scaled-fixed p c,
  context_exact (fixed p c) h,
)

pub quantize-zero : (p : ℕ) → quantize (of_int (pos 0)) p ≡ ok (fixed p (pos 0))
unfolding quantize
quantize-zero p = ground (arith, zero-mul (10 ^ (p - 0)))
