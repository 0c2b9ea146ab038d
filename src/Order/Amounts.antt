-- ===== src/Order/Amounts.antt =====
-- The amounts of an order: its lines add up to its subtotal (backend/app/domain/order/service.py,
-- `checkout`, with backend/app/domain/pricing/service.py).
use neo_store.Order.Outcome.{place_order_outcome}
use neo_store.Result.{ok}
use neo_store.Decimal.Laws.{fixed, mul-fixed_int}
use neo_store.Pricing.Lines.{line_amount, line_size, line_sum, unit_price_shape, calculate_subtotal}
use neo_store.Decimal.{abs, precision_limit, Decimal}
use neo_store.Order.Drafted.{AllDrafted, DraftedFrom, order_lines_outcome}
use neo_store.Prelude.Int.{ℤ, pos, ◌*ℤ◌, ◌+ℤ◌}
use neo_store.Order.Service.{Request, place_order}
use neo_store.Currency.{CurrencyTables, decimal_places}
use neo_store.Cart.{CartLine, line_input}
use neo_store.Prelude.Text.{Text}
use neo_store.Order.Models.{OrderLine, Order}
use neo_store.Order.Shop.{Env, Draws, Shop}
use neo_store.Prelude.{ℕ, List, ◌∷◌, ◌<◌, ◌+◌, [], map, ◌≡◌, All, arith, ap, refl, ◌∙◌, subst}

-- The lines' totals added up, in units of the last place.
abbrev pub total_coeff : List OrderLine → ℤ
total_coeff [] = pos 0
total_coeff (l ∷ ls) = l.line_total.coeff +ℤ total_coeff ls

-- The magnitudes of unit price times quantity, added up.
abbrev pub amount_size : List OrderLine → ℕ
amount_size [] = 0
amount_size (l ∷ ls) = abs (l.unit_price.coeff *ℤ l.quantity) + amount_size ls

module _ (env : Env) (currency : Text) where
  abbrev tables : CurrencyTables
  tables = env.shelf.currencies

  -- A line's total is exact.
  line_total_exact :
      (l : CartLine) (o : OrderLine)
      → DraftedFrom env currency l o
      → abs (o.unit_price.coeff *ℤ o.quantity) < precision_limit
      → o.line_total ≡ fixed (decimal_places tables currency) (o.unit_price.coeff *ℤ o.quantity)
  line_total_exact l o d small =
      let (shape, fits) =
        unit_price_shape tables (d.product, d.variant) currency o.unit_price d.priced in
      cc (
        d.line_total,
        shape,
        mul-fixed_int (decimal_places tables currency) o.unit_price.coeff o.quantity small,
      )

  line_amount_drafted :
      (l : CartLine) (o : OrderLine)
      → DraftedFrom env currency l o
      → line_amount tables env.shelf.products currency (line_input l)
        ≡ o.unit_price.coeff *ℤ o.quantity
  line_amount_drafted l o d =
      let f = d.found in let p = d.priced in let q = d.quantity in ground arith

  AllDrafted-size :
      (ls : List CartLine) (os : List OrderLine)
      → AllDrafted env currency ls os
      → line_size tables env.shelf.products currency (map line_input ls) ≡ amount_size os
  AllDrafted-size [] [] h = refl
  AllDrafted-size [] (o ∷ os) h = absurd h
  AllDrafted-size (l ∷ ls) [] h = absurd h
  AllDrafted-size (l ∷ ls) (o ∷ os) h =
      let here = line_amount_drafted l o h.0 in
      let rest = AllDrafted-size ls os h.1 in cc (here, rest)

  AllDrafted-sum :
      (ls : List CartLine) (os : List OrderLine)
      → AllDrafted env currency ls os
      → amount_size os < precision_limit
      → (line_sum tables env.shelf.products currency (map line_input ls) ≡ total_coeff os)
        × All
            (λ (o : OrderLine).
              o.line_total
              ≡ fixed (decimal_places tables currency) (o.unit_price.coeff *ℤ o.quantity))
            os
  AllDrafted-sum [] [] h small = (refl, tt)
  AllDrafted-sum [] (o ∷ os) h small = absurd h
  AllDrafted-sum (l ∷ ls) [] h small = absurd h
  AllDrafted-sum (l ∷ ls) (o ∷ os) h small =
      let total = line_total_exact l o h.0 (omega arith) in
      let (sum, totals) = AllDrafted-sum ls os h.1 (omega arith) in
      let coeff : o.line_total.coeff ≡ o.unit_price.coeff *ℤ o.quantity =
        ap (λ (d : Decimal). d.coeff) total in
      (cc (line_amount_drafted l o h.0, coeff, sum), (total, totals))

-- A checkout that places an order makes its amounts add up: in the last place of the currency, each
-- line's total is exactly the unit price times the quantity, and the subtotal is the exact sum of
-- these totals, as long as the unit prices times the quantities add up to 28 digits at most.
pub place_order_amounts :
    (env : Env) (draws : Draws) (request : Request) (o : Order) (s t : Shop)
    → place_order env draws request s ≡ (ok o, t)
    → amount_size o.lines < precision_limit
    → (o.subtotal
        ≡ fixed (decimal_places env.shelf.currencies o.currency_code) (total_coeff o.lines))
      × All
          (λ (l : OrderLine).
            l.line_total
            ≡ fixed
                (decimal_places env.shelf.currencies o.currency_code)
                (l.unit_price.coeff *ℤ l.quantity))
          o.lines
place_order_amounts env draws request o s t h small =
    let p = place_order_outcome env draws request o s t h in
    let ls = p.cart.lines in
    let os = p.drafted.lines in
    let currency = p.cart.currency_code in
    let drafted = order_lines_outcome env _ currency ls os p.priced.lines in
    let lines : o.lines ≡ os = ap (λ (x : Order). x.lines) p.result in
    let same : o.currency_code ≡ currency =
      ap (λ (x : Order). x.currency_code) p.result ∙ p.priced.currency in
    let fits : amount_size os < precision_limit =
      subst (λ x. amount_size x < precision_limit) lines small in
    let (sum, totals) = AllDrafted-sum env currency ls os drafted fits in
    let sized = AllDrafted-size env currency ls os drafted in
    let subtotal =
      calculate_subtotal env.shelf.currencies env.shelf.products (map line_input ls) p.priced.region
        currency p.priced.calculated (rw sized fits) in
    rw (lines, same)
      (
        ap (λ (x : Order). x.subtotal) p.result
            ∙ p.priced.subtotal
            ∙ subtotal
            ∙ ap (fixed (decimal_places env.shelf.currencies currency)) sum,
        totals,
      )
