-- ===== src/Tests/Lists.antt =====
-- Witnesses for regions, locales, carts and the status machine.
use neo_store.Cart.Valid.{IsValid}
use neo_store.Cart.Calls.{Calls, Calls-IsValid, adds, removes, next, idle}
use neo_store.Decimal.{quantize, context, with_sign, half_up}
use neo_store.Locale.Translation.{translate_outcome}
use neo_store.Region.Resolve.{resolve_region_raises_iff}
use neo_store.Cart.Access.{get_by_token_iff}
use neo_store.Currency.{convert, round_money, decimal_places, get_currency}
use neo_store.Cart.Lines.{cart_units, units_of, add_line_units}
use neo_store.Locale.Negotiation.{is_registered, accept_language_registered}
use neo_store.Errors.{not_found, coded_error, no_region_configured}
use neo_store.Pricing.{unit_price, explicit_price}
use neo_store.Result.{ok, err}
use neo_store.Prelude.Int.{pos, ◌≤ℤ◌, ◌+ℤ◌, ◌*ℤ◌}
use neo_store.Catalog.Models.{find_variant, variant_of}
use neo_store.Tests.Data.{cart, america, line, english, shelf}
use neo_store.Region.{resolve_region}
use neo_store.Cart.{
  Cart, add_line, get_by_token, find_cart, is_expired, active, put_cart, lines_with, find_line,
  raise_line, refresh, remove_line, update_line, get_line, change_line,
}
use neo_store.Prelude.{
  List, ◌≤◌, ◌∷◌, ◌≡◌, [], refl, some, ◌↔◌, any, ◌⊎◌, ℕ, true, none, ◌<◌, false, All, arith,
}
use neo_store.Order.Status.Paths.{
  moves, Visits, Reaches, settled_was_paid, moves_bound, step, start, validate_status-status_text,
}
use neo_store.Locale.{resolve_from_accept_language, translate, default_locale}
use neo_store.Prelude.Text.{Text, text, upper, text_eq, upper_char}
use neo_store.Prelude.Table
use neo_store.Order.Status.{
  draft, validate_status, assert_transition, paid, status_text, refunded, awaiting_payment,
}

resolve_region_raises_iff_example :
    (resolve_region (america ∷ []) (some (text "DE"))
      ≡ err (coded_error not_found no_region_configured))
    ↔ (america ∷ [] ≡ [])
resolve_region_raises_iff_example = resolve_region_raises_iff (america ∷ []) (some (text "DE"))

accept_language_registered_example :
    (resolve_from_accept_language (text "en") (english ∷ []) (some (text "de;q=0.9, en"))
      ≡ default_locale (text "en") (english ∷ []))
    ⊎ (is_registered
          (english ∷ [])
          (resolve_from_accept_language (text "en") (english ∷ []) (some (text "de;q=0.9, en")))
        ≡ true)
accept_language_registered_example =
    accept_language_registered (text "en") (english ∷ []) (some (text "de;q=0.9, en"))

-- Rows as pairs of a locale and a name.
abbrev rows : List (Text × Text)
rows = (text "en", text "Mug") ∷ (text "de", text "Becher") ∷ []

abbrev row_locale : Text × Text → Text
row_locale (l, name) = l

translate_outcome_example :
    ((row : Text × Text)
      → translate row_locale (text "en") rows (text "de") ≡ some row
      → (any (λ r. text_eq (row_locale r) (text "de")) rows ≡ true → row_locale row ≡ text "de")
        × (any (λ r. text_eq (row_locale r) (text "de")) rows ≡ false → row_locale row ≡ text "en"))
    × ((translate row_locale (text "en") rows (text "de") ≡ none) ↔ (
        (any (λ r. text_eq (row_locale r) (text "de")) rows ≡ false)
        × (any (λ r. text_eq (row_locale r) (text "en")) rows ≡ false)))
translate_outcome_example = translate_outcome row_locale (text "en") rows (text "de")

get_by_token_iff_example : (get_by_token 5 (text "tok") (cart ∷ []) ≡ (ok cart, cart ∷ [])) ↔ (
    (find_cart (text "tok") (cart ∷ []) ≡ some cart)
    × (cart.status ≡ active)
    × (5 < cart.expires_at))
get_by_token_iff_example = get_by_token_iff 5 (text "tok") (cart ∷ []) cart

abbrev fuller : Cart
fuller = record cart { lines = record line { quantity = pos 5 } ∷ [] }

added : add_line shelf 4 (text "tok") 7 (pos 3) (cart ∷ []) ≡ (ok fuller, fuller ∷ [])
unfolding add_line get_by_token find_cart is_expired find_variant variant_of unit_price
    explicit_price convert round_money quantize context decimal_places get_currency upper upper_char
    with_sign half_up lines_with find_line raise_line refresh put_cart Table.put ◌+ℤ◌ ◌*ℤ◌
added = refl

add_line_units_example :
    (old : Cart) × (find_cart (text "tok") (cart ∷ []) ≡ some old)
    × (pos 1 ≤ℤ pos 3)
    × ((v : ℕ) → cart_units v fuller.lines ≡ cart_units v old.lines +ℤ units_of v (some 7) (pos 3))
    × (fuller ∷ [] ≡ put_cart fuller (cart ∷ []))
add_line_units_example =
    add_line_units shelf 4 (text "tok") 7 (pos 3) (cart ∷ []) (fuller ∷ []) fuller added

abbrev emptied : Cart
emptied = record cart { lines = [] }

removed : remove_line 5 (text "tok") line.id (fuller ∷ []) ≡ (ok emptied, emptied ∷ [])
unfolding remove_line update_line get_by_token find_cart is_expired get_line change_line refresh
    put_cart Table.put
removed = refl

add_and_remove : Calls (cart ∷ []) (emptied ∷ [])
add_and_remove =
    next (next idle (adds shelf 4 (text "tok") 7 (pos 3) added))
      (removes 5 (text "tok") line.id removed)

cart-IsValid : IsValid cart
cart-IsValid = record { once = λ v. ground arith; filled = (ground arith, tt) }

Calls-IsValid_example : All IsValid (emptied ∷ [])
Calls-IsValid_example = Calls-IsValid add_and_remove (cart-IsValid, tt)

to_refund : Reaches draft refunded
unfolding assert_transition
to_refund = step {b = paid} (step {b = awaiting_payment} (step {b = draft} start refl) refl) refl

moves_bound_example : moves to_refund ≤ 5
moves_bound_example = moves_bound to_refund

settled_was_paid_example : Visits paid to_refund
settled_was_paid_example = settled_was_paid to_refund refl

validate_status-status_text_example :
    (validate_status (status_text paid) ≡ ok paid)
    × (validate_status (upper (status_text paid)) ≡ ok paid)
validate_status-status_text_example = validate_status-status_text paid
