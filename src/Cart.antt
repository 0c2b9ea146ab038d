-- ===== src/Cart.antt =====
-- backend/app/domain/cart: anonymous carts, their lines and totals. A time is a number of UTC
-- time units, as a naive time is read as UTC; the table of carts is the list of its rows, each
-- with its lines. Tokens and ids that the program draws at random are arguments.
pub mod Lines
pub mod Access
pub mod Valid
pub mod Calls
use neo_store.Region.{Region, resolve_region}
use neo_store.Errors.{
  coded_error, not_found, domain, invalid_quantity, cart_not_found, cart_line_not_found,
  plain_error, cart_expired, variant_not_found,
}
use neo_store.Result.{Result, err, ok}
use neo_store.Catalog.Models.{Product, find_variant}
use neo_store.Decimal.{Decimal}
use neo_store.Prelude.Text.{Text, upper, text_eq}
use neo_store.Currency.{CurrencyTables}
use neo_store.Pricing.{LineInput, PriceBreakdown, calculate, unit_price}
use neo_store.Prelude.Int.{ℤ, pos, leb_ℤ, ◌+ℤ◌}
use neo_store.Prelude.{
  ℕ, ◌*◌, Bool, List, Option, false, ◌∷◌, some, none, true, find, not, [], ◌++◌, ◌==◌,
  if◌then◌else◌, ◌+◌, leb, ltb, length, map,
}
use neo_store.Prelude.Table
use neo_store.Exec.{◌>>=◌, ◌>>◌, Exec, gets, raise_if, modify, pure, lift, or_raise}

pub data CartStatus : Type 0 where
  active converted abandoned : CartStatus

pub record CartLine : Type 0 where
  pub id : ℕ
  pub variant_id : ℕ
  pub quantity : ℤ
  pub unit_price : Decimal
  pub currency_code : Text
  pub position : ℕ

pub record Cart : Type 0 where
  pub id : ℕ
  pub token : Text
  pub region_code : Text
  pub currency_code : Text
  pub status : CartStatus
  pub expires_at : ℕ
  pub email : Option Text
  pub lines : List CartLine

-- The tables that the service reads and never writes, and the time of the call.
pub record Shelf : Type 0 where
  pub currencies : CurrencyTables
  pub products : List Product
  pub regions : List Region
  pub now : ℕ

abbrev pub cart_key : Cart → ℕ
cart_key c = c.id

-- `DEFAULT_TTL_DAYS`, in the units of `now`
abbrev pub default_ttl : ℕ → ℕ
default_ttl day = 30 * day

-- `_is_expired`
unfoldable pub is_expired : Option ℕ → ℕ → Bool
is_expired none now = false
is_expired (some expires_at) now = leb expires_at now

abbrev pub is_active : CartStatus → Bool
is_active active = true
is_active converted = false
is_active abandoned = false

-- `CartRepository.get_by_token`
unfoldable pub find_cart : Text → List Cart → Option Cart
find_cart token carts = find (λ c. text_eq c.token token) carts

-- The flush of a cart that was added or changed.
unfoldable pub put_cart : Cart → List Cart → List Cart
put_cart c carts = Table.put cart_key c carts

-- The row that `create` adds; `day` is the length of a day in the units of `now`.
new_cart : ℕ → Text → ℕ → ℕ → Text → Text → Cart
new_cart id token now day region_code currency_code = record {
  id = id;
  token = token;
  region_code = region_code;
  currency_code = upper currency_code;
  status = active;
  expires_at = now + default_ttl day;
  email = none;
  lines = [];
}

-- `CartService.create`
unfoldable pub create : ℕ → Text → ℕ → ℕ → Text → Text → Exec (List Cart) Cart
unfolding new_cart
create id token now day region_code currency_code = do
  let cart = new_cart id token now day region_code currency_code
  modify (put_cart cart)
  pure cart

-- What `get_by_token` makes of the row it found.
check_cart : ℕ → Option Cart → Result Cart
check_cart now none = err (coded_error not_found cart_not_found)
check_cart now (some cart) =
    if not (is_active cart.status)
    then err (plain_error cart_expired)
    else if is_expired (some cart.expires_at) now
    then err (plain_error cart_expired)
    else ok cart

-- `CartService.get_by_token`
unfoldable pub get_by_token : ℕ → Text → Exec (List Cart) Cart
unfolding check_cart
get_by_token now token carts = (check_cart now (find_cart token carts), carts)

insert_line : CartLine → List CartLine → List CartLine
insert_line l [] = l ∷ []
insert_line l (m ∷ ms) = if ltb m.position l.position then m ∷ insert_line l ms else l ∷ m ∷ ms

sort_lines : List CartLine → List CartLine
unfolding insert_line
sort_lines [] = []
sort_lines (l ∷ ls) = insert_line l (sort_lines ls)

-- `session.refresh(cart)` loads the lines by `order_by="CartLine.position"`.
unfoldable pub refresh : Cart → Cart
unfolding sort_lines
refresh cart = record cart { lines = sort_lines cart.lines }

-- `CartRepository.find_line` in the cart's own lines
unfoldable pub find_line : ℕ → List CartLine → Option CartLine
find_line variant_id lines = find (λ l. l.variant_id == variant_id) lines

-- The assignments to the line of a variant that is in the cart.
unfoldable pub raise_line : ℕ → ℤ → Decimal → List CartLine → List CartLine
raise_line variant_id quantity unit_price [] = []
raise_line variant_id quantity unit_price (l ∷ ls) =
    if l.variant_id == variant_id
    then record l { quantity = l.quantity +ℤ quantity; unit_price = unit_price } ∷ ls
    else l ∷ raise_line variant_id quantity unit_price ls

-- The two branches of `add_line` on whether the variant is in the cart.
unfoldable pub lines_with : ℕ → ℕ → ℤ → Decimal → Text → List CartLine → List CartLine
lines_with line_id variant_id quantity unit_price currency_code lines =
    elim (find_line variant_id lines) [
      | some existing ↦ raise_line variant_id quantity unit_price lines
      | none ↦
          lines
          ++ record {
            id = line_id;
            variant_id = variant_id;
            quantity = quantity;
            unit_price = unit_price;
            currency_code = currency_code;
            position = length lines;
          }
            ∷ []
    ]

-- `CartService.add_line`; `line_id` is the id that a new line gets
unfoldable pub add_line : Shelf → ℕ → Text → ℕ → ℤ → Exec (List Cart) Cart
add_line shelf line_id token variant_id quantity = do
  raise_if (leb_ℤ quantity (pos 0)) (domain not_found invalid_quantity 422)
  cart ← get_by_token shelf.now token
  found ←
      or_raise (find_variant variant_id shelf.products) (coded_error not_found variant_not_found)
  price ← lift (unit_price shelf.currencies found cart.currency_code)
  let updated = refresh (record cart {
    lines = lines_with line_id variant_id quantity price cart.currency_code cart.lines;
  })
  modify (put_cart updated)
  pure updated

-- `CartRepository.get_line`, with the id of the cart that holds the line
unfoldable pub get_line : ℕ → List Cart → Option (ℕ × CartLine)
get_line line_id [] = none
get_line line_id (c ∷ cs) = elim (find (λ (l : CartLine). l.id == line_id) c.lines) [
  | some l ↦ some (c.id, l)
  | none ↦ get_line line_id cs
]

-- `line is None or line.cart_id != cart.id`
abbrev pub is_foreign : Cart → Option (ℕ × CartLine) → Bool
is_foreign cart none = true
is_foreign cart (some (cart_id, line)) = not (cart_id == cart.id)

-- The assignment, or the removal, of `update_line`.
unfoldable pub change_line : ℕ → ℤ → List CartLine → List CartLine
change_line line_id quantity [] = []
change_line line_id quantity (l ∷ ls) =
    let rest = change_line line_id quantity ls in
    if not (l.id == line_id)
    then l ∷ rest
    else if leb_ℤ quantity (pos 0)
    then ls
    else record l { quantity = quantity } ∷ ls

-- `CartService.update_line`
unfoldable pub update_line : ℕ → Text → ℕ → ℤ → Exec (List Cart) Cart
update_line now token line_id quantity = do
  cart ← get_by_token now token
  line ← gets (get_line line_id)
  raise_if (is_foreign cart line) (coded_error not_found cart_line_not_found)
  let updated = refresh (record cart { lines = change_line line_id quantity cart.lines })
  modify (put_cart updated)
  pure updated

-- `CartService.remove_line`
unfoldable pub remove_line : ℕ → Text → ℕ → Exec (List Cart) Cart
unfolding update_line
remove_line now token line_id = update_line now token line_id (pos 0)

-- `CartService.set_email`
unfoldable pub set_email : Cart → Text → Exec (List Cart) Cart
set_email cart email = do
  let updated = record cart { email = some email }
  modify (put_cart updated)
  pure updated

-- `CartService.mark_converted`
unfoldable pub mark_converted : Cart → Exec (List Cart) Cart
mark_converted cart = do
  let updated = record cart { status = converted }
  modify (put_cart updated)
  pure updated

-- `LineInput(variant_id=line.variant_id, quantity=line.quantity)`
abbrev pub line_input : CartLine → LineInput
line_input line = record { variant_id = line.variant_id; quantity = line.quantity }

-- `CartService.totals`
unfoldable pub totals : Shelf → Text → Exec (List Cart) PriceBreakdown
totals shelf token = do
  cart ← get_by_token shelf.now token
  region ← lift (resolve_region shelf.regions (some cart.region_code))
  lift (
      calculate shelf.currencies shelf.products (map line_input cart.lines) region
        cart.currency_code)
