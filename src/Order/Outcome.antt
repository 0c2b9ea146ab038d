-- ===== src/Order/Outcome.antt =====
-- What a successful checkout, payment or move has done, as one equation for each part of the
-- state.
use neo_store.Prelude.Table
use neo_store.Cart.Lines.{cart_units}
use neo_store.Order.Units.{with_reserved, reserve_lines_row}
use neo_store.Inventory.{get_item}
use neo_store.Locale.{resolve_locale}
use neo_store.Pricing.{PriceBreakdown, calculate}
use neo_store.Order.Draft.{draft_order, order_lines}
use neo_store.Region.{Region, resolve_region}
use neo_store.Result.{ok, >>=-eq-ok, Result-cases}
use neo_store.Order.Status.{draft, awaiting_payment, assert_transition}
use neo_store.Prelude.Text.{Text, text}
use neo_store.Payment.{create_intent}
use neo_store.Order.Models.{Order, mark_awaiting_payment}
use neo_store.Cart.{
  Cart, converted, set_email, put_cart, mark_converted, find_cart, get_by_token, line_input,
}
use neo_store.Order.Shop.{Draws, Shop, put_order, Env, order_key}
use neo_store.Order.Service.{open_order, Request, place_order, price_order, reserve_lines}
use neo_store.Prelude.{
  Option, some, ◌++◌, ◌≡◌, ◌∷◌, [], arith, map, Option-cases, inl, inr, refl, ap, ℕ, ◌∙◌,
}

-- The note that records the intent, and the order after it.
abbrev pub intent_note : Draws → Option Text
intent_note draws = some (text "intent:" ++ (text "mock_" ++ draws.intent_hex))

abbrev pub opened : Draws → Order → Order
opened draws order = record order {
  status = awaiting_payment;
  events =
      order.events
      ++ record { from_status = some draft; to_status = awaiting_payment; note = intent_note draws }
        ∷ [];
}

abbrev pub spent : Request → Cart → Cart
spent request cart = record cart { email = some request.email; status = converted }

pub record OpenedAs (draws : Draws) (request : Request) (cart : Cart) (order o : Order) (s t : Shop)
    : Type 0 where
  pub result : o ≡ opened draws order
  pub orders : t.orders ≡ (put_order (opened draws order) (put_order order s)).orders
  pub stock : t.stock ≡ s.stock
  pub carts :
      t.carts
      ≡ put_cart
          (spent request cart)
          (put_cart (record cart { email = some request.email }) s.carts)

open_order_outcome :
    (draws : Draws) (request : Request) (cart : Cart) (order o : Order) (s t : Shop)
    → order.status ≡ draft
    → open_order draws request cart order s ≡ (ok o, t)
    → OpenedAs draws request cart order o s t
unfolding open_order create_intent mark_awaiting_payment assert_transition set_email mark_converted
    put_order
open_order_outcome draws request cart order o s t d h = ground arith

-- How the drafted order came from the cart.
pub record PricedAs (env : Env) (draws : Draws) (request : Request) (cart : Cart) (s : Shop)
    (o : Order) : Type 0 where
  pub region : Region
  pub resolved : resolve_region env.shelf.regions (some cart.region_code) ≡ ok region
  pub breakdown : PriceBreakdown
  pub calculated :
      calculate env.shelf.currencies env.shelf.products
        (map line_input cart.lines)
        region
        cart.currency_code
      ≡ ok breakdown
  pub lines :
      order_lines env
        (resolve_locale env.configured_locale env.locales request.locale)
        cart.currency_code
        cart.lines
      ≡ ok o.lines
  pub status : o.status ≡ draft
  pub id : o.id ≡ draws.order_id
  pub key : o.idempotency_key ≡ request.idempotency_key
  pub region_code : o.region_code ≡ region.code
  pub currency : o.currency_code ≡ cart.currency_code
  pub email : o.email ≡ request.email
  pub shipping_address : o.shipping_address ≡ request.shipping_address
  pub subtotal : o.subtotal ≡ breakdown.subtotal
  pub shipping_fee : o.shipping_fee ≡ breakdown.shipping_fee
  pub tax : o.tax ≡ breakdown.tax
  pub total : o.total ≡ breakdown.total
  pub events : o.events ≡ []

price_order_outcome :
    (env : Env) (draws : Draws) (request : Request) (cart : Cart) (s : Shop) (o : Order)
    → price_order env draws request cart s ≡ ok o
    → PricedAs env draws request cart s o
unfolding price_order draft_order
price_order_outcome env draws request cart s o h =
    let (region, e1, h1) =
      >>=-eq-ok (resolve_region env.shelf.regions (some cart.region_code)) _ h in
    let (b, e2, h2) =
      >>=-eq-ok
        (calculate env.shelf.currencies env.shelf.products (map line_input cart.lines) region
          cart.currency_code)
        _ h1 in
    let (ls, e3, h3) =
      >>=-eq-ok
        (order_lines env (resolve_locale env.configured_locale env.locales request.locale)
          cart.currency_code cart.lines)
        _ h2 in
    record {
      region = region;
      resolved = e1;
      region_code = ground arith;
      email = ground arith;
      shipping_address = ground arith;
      shipping_fee = ground arith;
      tax = ground arith;
      events = ground arith;
      breakdown = b;
      calculated = e2;
      lines = ground arith;
      status = ground arith;
      id = ground arith;
      key = ground arith;
      currency = ground arith;
      subtotal = ground arith;
      total = ground arith;
    }

-- A checkout that was no replay.
pub record PlacedAs (env : Env) (draws : Draws) (request : Request) (o : Order) (s t : Shop)
    : Type 0 where
  pub cart : Cart
  pub found : find_cart request.cart_token s.carts ≡ some cart
  pub drafted : Order
  pub priced : PricedAs env draws request cart s drafted
  pub reserved : reserve_lines cart.lines s.stock ≡ (ok tt, t.stock)
  pub rows :
      (v : ℕ) → get_item v t.stock ≡ with_reserved (cart_units v cart.lines) (get_item v s.stock)
  pub result : o ≡ opened draws drafted
  pub orders : t.orders ≡ (put_order (opened draws drafted) (put_order drafted s)).orders
  pub carts :
      t.carts
      ≡ put_cart
          (spent request cart)
          (put_cart (record cart { email = some request.email }) s.carts)

-- The state after the reservation.
abbrev held : Cart → Shop → Shop
held cart s = record s { stock = (reserve_lines cart.lines s.stock).1 }

place_order_steps :
    (env : Env) (draws : Draws) (request : Request) (cart : Cart) (order o : Order) (s t : Shop)
    → find_cart request.cart_token s.carts ≡ some cart
    → price_order env draws request cart s ≡ ok order
    → place_order env draws request s ≡ (ok o, t)
    → ((reserve_lines cart.lines s.stock).0 ≡ ok tt)
      × (open_order draws request cart order (held cart s) ≡ (ok o, t))
unfolding place_order get_by_token
place_order_steps env draws request cart order o s t f p h = ground arith

place_order_priced :
    (env : Env) (draws : Draws) (request : Request) (o : Order) (s t : Shop)
    → place_order env draws request s ≡ (ok o, t)
    → (cart : Cart) × (order : Order) × (find_cart request.cart_token s.carts ≡ some cart)
      × (price_order env draws request cart s ≡ ok order)
unfolding place_order get_by_token
place_order_priced env draws request o s t h =
    elim (Option-cases (find_cart request.cart_token s.carts)) [
      | inl e ↦ ground arith
      | inr (cart, e) ↦ elim (Result-cases (price_order env draws request cart s)) [
        | inl (order, e') ↦ (cart, order, e, e')
        | inr (x, e') ↦ ground arith
      ]
    ]

-- A checkout that placed an order has found the cart of its token, priced it in the region that the
-- cart's region code resolves to, and drafted its lines; the order has the email and the address of
-- the request and the four amounts, the region and the currency of that
-- pricing. In the row of every variant
-- the reserved units have risen by the variant's units in the cart, and nothing else in the rows has
-- changed. The order is stored as awaiting payment with its intent noted, and the cart is left with
-- the request's email and converted.
pub place_order_outcome :
    (env : Env) (draws : Draws) (request : Request) (o : Order) (s t : Shop)
    → place_order env draws request s ≡ (ok o, t)
    → PlacedAs env draws request o s t
place_order_outcome env draws request o s t h =
    let (cart, order, found, priced) = place_order_priced env draws request o s t h in
    let (reserved, opening) = place_order_steps env draws request cart order o s t found priced h in
    let from_cart = price_order_outcome env draws request cart s order priced in
    let end =
      open_order_outcome draws request cart order o (held cart s) t from_cart.status opening in
    record {
      cart = cart;
      found = found;
      drafted = order;
      priced = from_cart;
      reserved = cc (reserved, end.stock);
      rows = λ v. ap (get_item v) end.stock ∙ reserve_lines_row v cart.lines s.stock reserved;
      result = end.result;
      orders = unfold put_order in end.orders;
      carts = end.carts;
    }

pub put_order_rows :
    (o : Order) (s : Shop) → (put_order o s).orders ≡ Table.put order_key o s.orders
unfolding put_order
put_order_rows o s = refl

-- The draft and the opened order are one row.
pub placed_rows :
    (env : Env) (draws : Draws) (request : Request) (o : Order) (s t : Shop)
    → PlacedAs env draws request o s t
    → t.orders ≡ Table.put order_key o s.orders
placed_rows env draws request o s t p =
    let o' = opened draws p.drafted in
    cc (
      p.orders,
      p.result,
      put_order_rows o' (put_order p.drafted s),
      put_order_rows p.drafted s,
      Table.put-put order_key o' p.drafted s.orders refl,
    )
