-- ===== src/Pricing/Lines.antt =====
-- The subtotal is the sum of the lines, each at its unit price: `sum_lines` and `unit_price`.
use neo_store.Pricing.Breakdown.{calculate_amounts}
use neo_store.Region.{Region}
use neo_store.Currency.Money.{round_money_shape}
use neo_store.Decimal.Laws.{
  fixed, Fits, mul-fixed_int, add-fixed, quantize-zero, add-zero_left, quantize-fixed,
}
use neo_store.Prelude.Int.{ℤ, pos, ◌+ℤ◌, ◌*ℤ◌, add-zero, zero-add, +ℤ_assoc, abs-add-le}
use neo_store.Prelude.Text.{Text}
use neo_store.Catalog.Models.{Product, ProductVariant, find_variant}
use neo_store.Decimal.{Decimal, abs, precision_limit, add, mul, of_int}
use neo_store.Prelude.{
  List, ◌≡◌, ℕ, ◌∷◌, none, [], ◌+◌, Option-cases, some, ◌<◌, inl, inr, arith, ◌≤◌,
}
use neo_store.Result.{Result, ok, err, Result-cases}
use neo_store.Currency.{CurrencyTables, decimal_places, convert, round_money}
use neo_store.Pricing.{unit_price, LineInput, sum_lines, explicit_price, PriceBreakdown, calculate}

-- A unit price has exactly the decimal places of its currency.
pub unit_price_shape :
    (t : CurrencyTables) (found : Product × ProductVariant) (cur : Text) (u : Decimal)
    → unit_price t found cur ≡ ok u
    → (u ≡ fixed (decimal_places t cur) u.coeff) × Fits u
unfolding unit_price
unit_price_shape t (p, v) cur u e = elim (Option-cases (explicit_price v cur)) [
  | inl h ↦ elim (Result-cases (convert t p.base_price p.base_currency cur)) [
    | inl (c, h') ↦ ground (arith, round_money_shape c u cur (decimal_places t cur))
    | inr (x, h') ↦ ground arith
  ]
  | inr (x, h) ↦ ground (arith, round_money_shape x u cur (decimal_places t cur))
]

abbrev unit_coeff : Result Decimal → ℤ
unit_coeff (ok u) = u.coeff
unit_coeff (err e) = pos 0

module _ (t : CurrencyTables) (products : List Product) (cur : Text) where
  -- One line's amount, in units of the currency's last place; zero for a missing variant.
  abbrev pub line_amount : LineInput → ℤ
  line_amount line = elim (find_variant line.variant_id products) [
    | none ↦ pos 0
    | some found ↦ unit_coeff (unit_price t found cur) *ℤ line.quantity
  ]

  -- The amounts added up, and their magnitudes added up.
  abbrev pub line_sum : List LineInput → ℤ
  line_sum [] = pos 0
  line_sum (l ∷ ls) = line_amount l +ℤ line_sum ls

  abbrev pub line_size : List LineInput → ℕ
  line_size [] = 0
  line_size (l ∷ ls) = abs (line_amount l) + line_size ls

  abbrev places : ℕ
  places = decimal_places t cur

  module _ (l : LineInput) (found : Product × ProductVariant) where
    -- One round of the loop adds the line's amount exactly.
    add_line_amount :
        (acc : ℤ) (u : Decimal)
        → unit_price t found cur ≡ ok u
        → abs acc + abs (u.coeff *ℤ l.quantity) < precision_limit
        → add (fixed places acc) (mul u (of_int l.quantity))
          ≡ fixed places (acc +ℤ u.coeff *ℤ l.quantity)
    add_line_amount acc u priced small =
        let (shape, _) = unit_price_shape t found cur u priced in
        let amount : ℤ = u.coeff *ℤ l.quantity in
        cc (
          shape,
          mul-fixed_int places u.coeff l.quantity (omega arith),
          add-fixed places acc amount (omega (arith, abs-add-le acc amount)),
        )

  -- With at most 28 digits in all, the loop's result is the exact sum.
  sum_lines_exact :
      (lines : List LineInput) (acc : ℤ) {r : Decimal}
      → sum_lines t products cur lines (fixed places acc) ≡ ok r
      → abs acc + line_size lines < precision_limit
      → r ≡ fixed places (acc +ℤ line_sum lines)
  unfolding sum_lines
  sum_lines_exact [] acc e small = ground (arith, add-zero acc)
  sum_lines_exact (l ∷ ls) acc {r} e small =
      elim (Option-cases (find_variant l.variant_id products)) [
        | inl h ↦ ground (arith, zero-add (line_sum ls), sum_lines_exact ls acc {r = r})
        | inr (found, h) ↦ elim (Result-cases (unit_price t found cur)) [
          | inr (x, h') ↦ ground arith
          | inl (u, h') ↦
              let amount : ℤ = u.coeff *ℤ l.quantity in
              ground (
                arith,
                add_line_amount l found acc u,
                +ℤ_assoc acc amount (line_sum ls),
                abs-add-le acc amount,
                sum_lines_exact ls (acc +ℤ amount) {r = r},
              )
        ]
      ]

  abs-line_sum-le : (lines : List LineInput) → abs (line_sum lines) ≤ line_size lines
  abs-line_sum-le [] = omega arith
  abs-line_sum-le (l ∷ ls) =
      omega (arith, abs-line_sum-le ls, abs-add-le (line_amount l) (line_sum ls))

  -- The loop begins with a zero that has no decimal places.
  round-sum_lines :
      (lines : List LineInput) {r : Decimal}
      → sum_lines t products cur lines (of_int (pos 0)) ≡ ok r
      → line_size lines < precision_limit
      → round_money r cur (some places) ≡ ok (fixed places (line_sum lines))
  unfolding sum_lines round_money
  round-sum_lines [] e small = ground (arith, quantize-zero places)
  round-sum_lines (l ∷ ls) {r} e small = elim (Option-cases (find_variant l.variant_id products)) [
    | inl h ↦ ground (arith, zero-add (line_sum ls), round-sum_lines ls {r = r})
    | inr (found, h) ↦ elim (Result-cases (unit_price t found cur)) [
      | inr (x, h') ↦ ground arith
      | inl (u, h') ↦
          let amount : ℤ = u.coeff *ℤ l.quantity in
          let (shape, _) = unit_price_shape t found cur u h' in
          let total : ℤ = amount +ℤ line_sum ls in
          ground (
            arith,
            shape,
            mul-fixed_int places u.coeff l.quantity,
            add-zero_left places amount,
            abs-add-le amount (line_sum ls),
            abs-line_sum-le ls,
            sum_lines_exact ls amount {r = r},
            quantize-fixed places total,
          )
    ]
  ]

-- The subtotal is the exact sum, over the lines, of the unit price of the line's variant times its
-- quantity, where a missing variant counts as zero, as long as the magnitudes of these amounts add
-- up to 28 digits at most.
pub calculate_subtotal :
    (t : CurrencyTables) (products : List Product) (lines : List LineInput) (region : Region)
    (cur : Text) {b : PriceBreakdown}
    → calculate t products lines region cur ≡ ok b
    → line_size t products cur lines < precision_limit
    → b.subtotal ≡ fixed (decimal_places t cur) (line_sum t products cur lines)
calculate_subtotal t products lines region cur {b} priced small =
    let steps = calculate_amounts t products lines region cur priced in
    cc (steps.subtotal, round-sum_lines t products cur lines steps.summed small)
