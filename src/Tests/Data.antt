-- ===== src/Tests/Data.antt =====
-- A shop with one product, one region, one cart and ten units of stock.
use neo_store.Order.Amounts.{amount_size}
use neo_store.Order.Accounts.{IsBalanced}
use neo_store.Order.Units.{reserved_units}
use neo_store.Inventory.Bounds.{ItemIsBounded}
use neo_store.Exec.{transaction, transaction-eq-ok}
use mathlib.Core.Option
use neo_store.Errors.{plain_error, coded_error}
use neo_store.Payment.{get_payment_provider, create_intent, put_intent, confirm, find_intent}
use neo_store.Prelude.Table
use neo_store.Order.Draft.{order_lines, order_line, next_number, next_number_loop, draft_order}
use neo_store.Catalog.Labels.{variant_label}
use neo_store.Decimal.{
  quantize, context, add, mul, with_sign, half_up, half_even, leb_decimal, precision_limit,
}
use neo_store.Pricing.{calculate, sum_lines, unit_price, explicit_price, basic_fee}
use neo_store.Prelude.Text.{text, Text, upper, upper_char}
use neo_store.Prelude.Int.{pos, ◌+ℤ◌, ◌-ℤ◌, ◌*ℤ◌, max_ℤ}
use neo_store.Prelude.{
  [], ◌∷◌, ◌≡◌, true, some, ℕ, refl, none, Option, Bool-cases, ◌==◌, inl, arith, subst, inr, ◌<◌,
}
use neo_store.Locale.{Locale, resolve_locale, default_locale, default_code, translate, find_last}
use neo_store.Region.{Region, resolve_region, get_region}
use neo_store.Result.{Result, ok, err}
use neo_store.Order.Shop.{
  Env, Draws, Shop, get_by_idempotency_key, number_exists, get_by_number, put_order, find_by_ref,
  undone,
}
use neo_store.Currency.{
  Currency, CurrencyTables, decimal_places, get_currency, default_decimal_places, convert,
  round_money,
}
use neo_store.Inventory.{
  Stock, InventoryItem, reserve, get_item, put_item, item_available, record_movement, release,
  commit_reservation,
}
use neo_store.Cart.{
  Cart, Shelf, CartLine, active, get_by_token, find_cart, is_expired, set_email, mark_converted,
  put_cart,
}
use neo_store.Order.Status.{
  draft, assert_transition, allowed_transitions, same_status, status_text, cancelled,
  awaiting_payment,
}
use neo_store.Catalog.Models.{Product, ProductVariant, published, find_variant, variant_of}
use neo_store.Order.Models.{Order, mark_awaiting_payment, move_to, cancel, mark_paid}
use neo_store.Order.Service.{
  Request, checkout, find_replay, place_order, price_order, open_order, reserve_lines, transition,
  pay, get_by_ref, transition_to, last_intent, release_lines, commit_lines,
}

abbrev pub dollar : Currency
dollar = record {
  code = text "USD";
  name = text "US Dollar";
  symbol = text "$";
  decimal_places = 2;
  is_active = true;
}

abbrev pub currencies : CurrencyTables
currencies = record { currencies = dollar ∷ []; rates = [] }

abbrev pub mug_variant : ProductVariant
mug_variant = record { id = 7; sku = text "MUG"; position = pos 0; prices = []; option_values = [] }

abbrev pub mug : Product
mug = record {
  id = 1;
  status = published;
  product_type = text "default";
  base_price = record { coeff = pos 1250; places = 2 };
  base_currency = text "USD";
  position = pos 0;
  translations = [];
  variants = mug_variant ∷ [];
}

abbrev pub america : Region
america = record {
  code = text "US";
  name = text "United States";
  currency_code = text "USD";
  tax_rate = record { coeff = pos 8; places = 2 };
  is_default = true;
  position = pos 0;
  locale_links = text "en" ∷ [];
  payment_method_links = [];
}

abbrev pub line : CartLine
line = record {
  id = 3;
  variant_id = 7;
  quantity = pos 2;
  unit_price = record { coeff = pos 1250; places = 2 };
  currency_code = text "USD";
  position = 0;
}

abbrev pub cart : Cart
cart = record {
  id = 1;
  token = text "tok";
  region_code = text "US";
  currency_code = text "USD";
  status = active;
  expires_at = 100;
  email = none;
  lines = line ∷ [];
}

abbrev pub english : Locale
english = record {
  code = text "en";
  name = text "English";
  is_active = true;
  is_default = true;
  position = pos 0;
}

abbrev pub shelf : Shelf
shelf = record { currencies = currencies; products = mug ∷ []; regions = america ∷ []; now = 0 }

abbrev no_uuid : Text → Option ℕ
no_uuid s = none

abbrev pub env : Env
env = record {
  shelf = shelf;
  locales = english ∷ [];
  configured_locale = text "en";
  parse_uuid = no_uuid;
}

abbrev pub draws : Draws
draws = record {
  order_id = 11;
  stamp = text "260101";
  short = λ (i : ℕ). text "ABC";
  long = text "ABCDEF";
  intent_hex = text "f0";
}

abbrev pub request : Request
request = record {
  cart_token = text "tok";
  email = text "a@b";
  shipping_address = text "{}";
  idempotency_key = some (text "k1");
  locale = none;
  provider_code = text "mock";
}

abbrev pub item : InventoryItem
item = record { variant_id = 7; quantity = pos 10; reserved = pos 0 }

abbrev pub stock : Stock
stock = record { items = item ∷ []; movements = [] }

abbrev pub shop : Shop
shop = record { stock = stock; carts = cart ∷ []; orders = []; intents = [] }

abbrev ordered : Result Order → Order → Order
ordered (ok o) d = o
ordered (err e) d = d

nothing : Order
nothing = record {
  id = 0;
  number = [];
  status = draft;
  region_code = [];
  currency_code = [];
  email = [];
  shipping_address = [];
  subtotal = record { coeff = pos 0; places = 0 };
  shipping_fee = record { coeff = pos 0; places = 0 };
  tax = record { coeff = pos 0; places = 0 };
  total = record { coeff = pos 0; places = 0 };
  idempotency_key = none;
  lines = [];
  events = [];
}

-- The order that the cart becomes, and the shop after the checkout.
unfoldable pub order : Order
unfolding nothing
order = ordered (checkout env draws request shop).0 nothing

unfoldable pub after : Shop
after = (checkout env draws request shop).1

pub checked_out : checkout env draws request shop ≡ (ok order, after)
unfolding order after nothing checkout find_replay get_by_idempotency_key place_order get_by_token
    find_cart is_expired price_order open_order resolve_region get_region calculate decimal_places
    get_currency upper upper_char default_decimal_places sum_lines find_variant variant_of
    unit_price explicit_price convert round_money quantize context add mul ◌+ℤ◌ ◌-ℤ◌ ◌*ℤ◌ with_sign
    half_up half_even basic_fee leb_decimal order_lines order_line next_number next_number_loop
    number_exists get_by_number draft_order resolve_locale default_locale default_code translate
    find_last variant_label reserve_lines reserve get_item put_item item_available record_movement
    put_order Table.put Table.get get_payment_provider create_intent put_intent
    mark_awaiting_payment move_to assert_transition allowed_transitions same_status status_text
    set_email mark_converted put_cart plain_error coded_error Option.bind
checked_out = refl

pub held_row : get_item 7 after.stock ≡ some (record item { reserved = pos 2 })
unfolding order after nothing checkout find_replay get_by_idempotency_key place_order get_by_token
    find_cart is_expired price_order open_order resolve_region get_region calculate decimal_places
    get_currency upper upper_char default_decimal_places sum_lines find_variant variant_of
    unit_price explicit_price convert round_money quantize context add mul ◌+ℤ◌ ◌-ℤ◌ ◌*ℤ◌ with_sign
    half_up half_even basic_fee leb_decimal order_lines order_line next_number next_number_loop
    number_exists get_by_number draft_order resolve_locale default_locale default_code translate
    find_last variant_label reserve_lines reserve get_item put_item item_available record_movement
    put_order Table.put Table.get get_payment_provider create_intent put_intent
    mark_awaiting_payment move_to assert_transition allowed_transitions same_status status_text
    set_email mark_converted put_cart plain_error coded_error Option.bind
held_row = refl

pub placed : place_order env draws request shop ≡ (ok order, after)
unfolding order after checkout find_replay get_by_idempotency_key
placed = checked_out

pub transacted : after ≡ (transaction undone (checkout env draws request) shop).1
transacted = transaction-eq-ok undone (checkout env draws request) shop checked_out

abbrev pub order_number : Text
order_number = text "NS-260101-ABC"

unfoldable pub paid_order : Order
unfolding nothing
paid_order = ordered (pay env order_number (text "mock") after).0 nothing

unfoldable pub after_payment : Shop
after_payment = (pay env order_number (text "mock") after).1

pub was_paid : pay env order_number (text "mock") after ≡ (ok paid_order, after_payment)
unfolding order after nothing checkout find_replay get_by_idempotency_key place_order get_by_token
    find_cart is_expired price_order open_order resolve_region get_region calculate decimal_places
    get_currency upper upper_char default_decimal_places sum_lines find_variant variant_of
    unit_price explicit_price convert round_money quantize context add mul ◌+ℤ◌ ◌-ℤ◌ ◌*ℤ◌ with_sign
    half_up half_even basic_fee leb_decimal order_lines order_line next_number next_number_loop
    number_exists get_by_number draft_order resolve_locale default_locale default_code translate
    find_last variant_label reserve_lines reserve get_item put_item item_available record_movement
    put_order Table.put Table.get get_payment_provider create_intent put_intent
    mark_awaiting_payment move_to assert_transition allowed_transitions same_status status_text
    set_email mark_converted put_cart plain_error coded_error Option.bind pay get_by_ref find_by_ref
    last_intent confirm find_intent mark_paid commit_lines commit_reservation max_ℤ paid_order
    after_payment
was_paid = refl

pub placed_order_found : find_by_ref env order_number after ≡ some order
unfolding order after nothing checkout find_replay get_by_idempotency_key place_order get_by_token
    find_cart is_expired price_order open_order resolve_region get_region calculate decimal_places
    get_currency upper upper_char default_decimal_places sum_lines find_variant variant_of
    unit_price explicit_price convert round_money quantize context add mul ◌+ℤ◌ ◌-ℤ◌ ◌*ℤ◌ with_sign
    half_up half_even basic_fee leb_decimal order_lines order_line next_number next_number_loop
    number_exists get_by_number draft_order resolve_locale default_locale default_code translate
    find_last variant_label reserve_lines reserve get_item put_item item_available record_movement
    put_order Table.put Table.get get_payment_provider create_intent put_intent
    mark_awaiting_payment move_to assert_transition allowed_transitions same_status status_text
    set_email mark_converted put_cart plain_error coded_error Option.bind find_by_ref
placed_order_found = refl

pub order_size_small : amount_size order.lines < precision_limit
unfolding order after nothing checkout find_replay get_by_idempotency_key place_order get_by_token
    find_cart is_expired price_order open_order resolve_region get_region calculate decimal_places
    get_currency upper upper_char default_decimal_places sum_lines find_variant variant_of
    unit_price explicit_price convert round_money quantize context add mul ◌+ℤ◌ ◌-ℤ◌ ◌*ℤ◌ with_sign
    half_up half_even basic_fee leb_decimal order_lines order_line next_number next_number_loop
    number_exists get_by_number draft_order resolve_locale default_locale default_code translate
    find_last variant_label reserve_lines reserve get_item put_item item_available record_movement
    put_order Table.put Table.get get_payment_provider create_intent put_intent
    mark_awaiting_payment move_to assert_transition allowed_transitions same_status status_text
    set_email mark_converted put_cart plain_error coded_error Option.bind
order_size_small = omega arith

pub placed_order_awaits : order.status ≡ awaiting_payment
unfolding order after nothing checkout find_replay get_by_idempotency_key place_order get_by_token
    find_cart is_expired price_order open_order resolve_region get_region calculate decimal_places
    get_currency upper upper_char default_decimal_places sum_lines find_variant variant_of
    unit_price explicit_price convert round_money quantize context add mul ◌+ℤ◌ ◌-ℤ◌ ◌*ℤ◌ with_sign
    half_up half_even basic_fee leb_decimal order_lines order_line next_number next_number_loop
    number_exists get_by_number draft_order resolve_locale default_locale default_code translate
    find_last variant_label reserve_lines reserve get_item put_item item_available record_movement
    put_order Table.put Table.get get_payment_provider create_intent put_intent
    mark_awaiting_payment move_to assert_transition allowed_transitions same_status status_text
    set_email mark_converted put_cart plain_error coded_error Option.bind
placed_order_awaits = refl

unfoldable pub cancelled_order : Order
unfolding nothing
cancelled_order = ordered (transition env order_number cancelled none after).0 nothing

unfoldable pub after_cancel : Shop
after_cancel = (transition env order_number cancelled none after).1

pub was_cancelled :
    transition env order_number cancelled none after ≡ (ok cancelled_order, after_cancel)
unfolding order after nothing checkout find_replay get_by_idempotency_key place_order get_by_token
    find_cart is_expired price_order open_order resolve_region get_region calculate decimal_places
    get_currency upper upper_char default_decimal_places sum_lines find_variant variant_of
    unit_price explicit_price convert round_money quantize context add mul ◌+ℤ◌ ◌-ℤ◌ ◌*ℤ◌ with_sign
    half_up half_even basic_fee leb_decimal order_lines order_line next_number next_number_loop
    number_exists get_by_number draft_order resolve_locale default_locale default_code translate
    find_last variant_label reserve_lines reserve get_item put_item item_available record_movement
    put_order Table.put Table.get get_payment_provider create_intent put_intent
    mark_awaiting_payment move_to assert_transition allowed_transitions same_status status_text
    set_email mark_converted put_cart plain_error coded_error Option.bind transition transition_to
    get_by_ref find_by_ref cancel release_lines release max_ℤ cancelled_order after_cancel
was_cancelled = refl

pub stock_bounds : (k : ℕ) (i : InventoryItem) → get_item k stock ≡ some i → ItemIsBounded i
unfolding get_item Table.get
stock_bounds k i h = elim (Bool-cases (7 == k)) [
  | inl e ↦
      let same : item ≡ i = ground arith in
      subst ItemIsBounded same
        (record { reserved_nonneg = omega arith; reserved_covered = omega arith })
  | inr e ↦ absurd (ground arith)
]

pub shop-IsBalanced : IsBalanced shop
unfolding reserved_units get_item Table.get
shop-IsBalanced = record {
  keyed = tt;
  sound = tt;
  bounded = record { at_key = λ (k : ℕ) (i : InventoryItem) h. stock_bounds k i h };
  balanced = λ (v : ℕ). ground arith;
}
