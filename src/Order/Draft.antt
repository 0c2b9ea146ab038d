-- ===== src/Order/Draft.antt =====
-- The parts of a new order: its number, its lines with what they snapshot, and the row itself.
use neo_store.Catalog.Labels.{variant_label}
use neo_store.Order.Status.{draft}
use neo_store.Decimal.{mul, of_int}
use neo_store.Errors.{coded_error, not_found, variant_not_found}
use neo_store.Locale.{default_locale, translate}
use neo_store.Order.Models.{OrderLine, Order}
use neo_store.Pricing.{PriceBreakdown, unit_price}
use neo_store.Region.{Region}
use neo_store.Cart.{CartLine, Cart}
use neo_store.Catalog.Models.{Translation, find_variant}
use neo_store.Order.Shop.{Draws, Env, Shop, number_exists}
use neo_store.Prelude.Text.{Text, text}
use neo_store.Result.{◌>>=◌, Result, ok, err}
use neo_store.Prelude.{ℕ, Option, List, some, ◌++◌, suc, ◌∷◌, [], none, false, ◌+◌, zero, true}

-- f"NS-{stamp}-{suffix}"
abbrev pub number_with : Text → Text → Text
number_with stamp suffix = text "NS-" ++ (stamp ++ (text "-" ++ suffix))

-- The loop of `_next_number` with the attempts that are left, from the i-th drawn suffix on.
unfoldable pub next_number_loop : ℕ → ℕ → Draws → Shop → Text
next_number_loop zero i draws s = number_with draws.stamp draws.long
next_number_loop (suc attempts) i draws s =
    let candidate = number_with draws.stamp (draws.short i) in
    elim (number_exists candidate s) [
      | false ↦ candidate
      | true ↦ next_number_loop attempts (i + 1) draws s
    ]

-- `OrderService._next_number`, with `NUMBER_ATTEMPTS` rounds
unfoldable pub next_number : Draws → Shop → Text
next_number draws s = next_number_loop 5 0 draws s

abbrev name_or : Option Translation → Text → Text
name_or none sku = sku
name_or (some translation) sku = translation.name

-- One round of the loop that appends the order's lines.
unfoldable pub order_line : Env → Text → Text → CartLine → Result OrderLine
order_line env locale currency_code line =
    let default_code = default_locale env.configured_locale env.locales in
    elim (find_variant line.variant_id env.shelf.products) [
      | none ↦ err (coded_error not_found variant_not_found)
      | some (product, variant) ↦ do
        unit ← unit_price env.shelf.currencies (product, variant) currency_code
        ok (record {
          variant_id = some variant.id;
          product_name =
              name_or
                (translate (λ (t : Translation). t.locale) default_code product.translations locale)
                variant.sku;
          variant_label = variant_label variant locale default_code;
          sku = variant.sku;
          unit_price = unit;
          quantity = line.quantity;
          line_total = mul unit (of_int line.quantity);
          currency_code = currency_code;
        })
    ]

unfoldable pub order_lines : Env → Text → Text → List CartLine → Result (List OrderLine)
order_lines env locale currency_code [] = ok []
order_lines env locale currency_code (line ∷ lines) = do
  first ← order_line env locale currency_code line
  rest ← order_lines env locale currency_code lines
  ok (first ∷ rest)

-- The new row of `checkout`, in the status DRAFT.
unfoldable pub draft_order :
    Draws
    → Text
    → Region
    → Cart
    → Text
    → Text
    → PriceBreakdown
    → Option Text
    → List OrderLine
    → Order
draft_order draws number region cart email address breakdown key lines = record {
  id = draws.order_id;
  number = number;
  status = draft;
  region_code = region.code;
  currency_code = cart.currency_code;
  email = email;
  shipping_address = address;
  subtotal = breakdown.subtotal;
  shipping_fee = breakdown.shipping_fee;
  tax = breakdown.tax;
  total = breakdown.total;
  idempotency_key = key;
  lines = lines;
  events = [];
}
