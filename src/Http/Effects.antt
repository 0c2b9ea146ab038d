-- ===== src/Http/Effects.antt =====
-- What each handler of the API that commits does to the shop's books: an order's request is a step
-- of the trade, and every other one leaves orders and reservations alone.
pub mod Dashboard
use neo_store.Order.Units.{reserved_units}
use neo_store.Catalog.Reads.{product_key}
use neo_store.Catalog.Categories.{create_category, put_category, upsert_category_translations}
use neo_store.Http.Sessions.{SameTables, uncommitted_same, then_read_same}
use neo_store.Catalog.NewProduct.{ProductWrite, variants_or_default, create_product}
use neo_store.Catalog.Admin.{
  ProductPatch, get_product, owned, set_variant_price, update_product, delete_product,
}
use neo_store.Decimal.{Decimal}
use neo_store.Http.Products.{
  patch_product, post_category, post_product, put_variant_price, remove_product, update_category,
  find_and_read, read_product,
}
use neo_store.Catalog.Models.{Product}
use neo_store.Catalog.Stocked.{
  StockKept, IsStockable, StockKept-refl, same-StockKept, create_product-StockKept,
  set_variant_price-stock, update_product-stock, upsert_category_translations-stock,
  delete_product-StockKept,
}
use neo_store.Catalog.Store.{Store, TranslationFields, get_or}
use neo_store.Currency.{CurrencyTables, refresh_rates, fetch}
use neo_store.Errors.{not_found, coded_error, mock_payments_disabled}
use neo_store.Inventory.{adjust}
use neo_store.Order.Models.{Order}
use neo_store.Order.Status.{OrderStatus, validate_status}
use neo_store.Order.Service.{checkout, pay, transition}
use neo_store.Http.Dashboard.{
  adjust_inventory, update_status, override_exchange_rate, refresh_exchange_rates,
}
use neo_store.Result.{Result-cases, err, ok}
use neo_store.Order.Trade.{checks_out, pays, moves, adjusts, Step}
use neo_store.Cart.{Cart, remove_line, add_line, update_line, create}
use neo_store.Prelude.Int.{ℤ, leb_ℤ, pos}
use neo_store.Order.Shop.{order_key, on_carts, Shop, on_stock}
use neo_store.Http.Books.{
  Untouched, committed-Untouched, same-Untouched, committed_shop, committed_after, admin_write-elim,
  admin_write-Untouched, on_store-Untouched, then_read-Untouched,
}
use neo_store.Prelude.Text.{Text, text, upper}
use neo_store.Exec.{Exec, ◌>>◌, ◌>>=◌, pure, bind-pure_state}
use neo_store.Http.Schemas.{
  CheckoutRequest, read_cart, InventoryAdjustment, OrderStatusUpdate, read_order, OrderRead,
  read_item, ExchangeRateOverride, serialize,
}
use neo_store.Http.Storefront.{
  create_cart, delete_line, patch_line, post_checkout, post_line, checkout_request, pay_order,
  cart_region,
}
use neo_store.Http.{
  Call, Database, validate, on_shop, shelf_of, env_of, get_locale, on_currencies, store_of,
  on_store, uncommitted, admin_write,
}
use neo_store.Prelude.{
  ℕ, All, Bool, Option, List, ◌≡◌, none, true, Bool-cases, inl, arith, inr, ◌⊎◌, subst,
  if◌then◌else◌, sym, not, refl, some, [],
}
use neo_store.Prelude.Table

module _ (call : Call) (d : Database) where
  cart_work :
      {A B : Type 0} (valid : Bool) (m : Exec (List Cart) A) (view : A → B)
      → Untouched d.shop
          ((validate valid >> (on_shop (λ e. on_carts m) >>= λ a. pure (view a))) d).1.shop
  cart_work valid m view = elim (Bool-cases valid) [
    | inl e ↦ elim (Result-cases (m d.shop.carts).0) [
      | inl (a, r) ↦ same-Untouched _ _ (ground arith) (ground arith)
      | inr (x, r) ↦ same-Untouched _ _ (ground arith) (ground arith)
    ]
    | inr e ↦ same-Untouched _ _ (ground arith) (ground arith)
  ]

  pub create_cart-Untouched :
      (region : Option Text) → Untouched d.shop (create_cart call region d).1.shop
  unfolding create_cart create
  create_cart-Untouched region =
      committed-Untouched _ d (elim (Result-cases (cart_region call region d)) [
        | inl (target, r) ↦ same-Untouched _ _ (ground arith) (ground arith)
        | inr (x, r) ↦ same-Untouched _ _ (ground arith) (ground arith)
      ])

  pub post_line-Untouched :
      (token : Text) (v : ℕ) (q : ℤ) → Untouched d.shop (post_line call token v q d).1.shop
  unfolding post_line
  post_line-Untouched token v q =
      committed-Untouched _ d
        (cart_work (leb_ℤ (pos 1) q) (add_line (shelf_of call d) call.line_id token v q) read_cart)

  pub patch_line-Untouched :
      (token : Text) (id : ℕ) (q : ℤ) → Untouched d.shop (patch_line call token id q d).1.shop
  unfolding patch_line
  patch_line-Untouched token id q =
      committed-Untouched _ d
        (cart_work (leb_ℤ (pos 0) q) (update_line call.now token id q) read_cart)

  pub delete_line-Untouched :
      (token : Text) (id : ℕ) → Untouched d.shop (delete_line call token id d).1.shop
  unfolding delete_line
  delete_line-Untouched token id =
      committed-Untouched _ d (cart_work true (remove_line call.now token id) read_cart)

  -- The orders' requests are steps of the trade.
  abbrev checkout_work : CheckoutRequest → Database → Exec Shop Order
  checkout_work payload e =
      checkout (env_of call e) call.draws (checkout_request call payload (get_locale call e))

  pub post_checkout_step :
      (payload : CheckoutRequest)
      → Table.get order_key call.draws.order_id d.shop.orders ≡ none
      → Step d.shop (post_checkout call payload d).1.shop
  unfolding post_checkout
  post_checkout_step payload fresh =
      checks_out (env_of call d) call.draws (checkout_request call payload (get_locale call d))
        fresh (committed_shop (checkout_work payload) read_order d)

  abbrev pay_work : Text → Database → Exec Shop Order
  pay_work number e = pay (env_of call e) number (text "mock")

  abbrev move_work : Text → OrderStatus → Option Text → Database → Exec Shop Order
  move_work ref target remark e = transition (env_of call e) ref target remark

  -- What a request of an order or of the stock comes to.
  abbrev pub Effect : Shop → Type 0
  Effect t = Step d.shop t ⊎ Untouched d.shop t

  pub pay_order-Effect : (number : Text) → Effect (pay_order call number d).1.shop
  unfolding pay_order
  pay_order-Effect number =
      let work : Unit {0} → Exec Database OrderRead =
        λ u. on_shop (pay_work number) >>= λ o. pure (read_order o) in
      let allowed =
        if not call.settings.enable_mock_payments
        then err (coded_error not_found mock_payments_disabled)
        else ok tt in
      elim (committed_after allowed work d) [
        | inl (u, e) ↦ inl (
            subst (λ r. Step d.shop r.1.shop) (sym e)
              (pays (env_of call d) number (text "mock")
                (committed_shop (pay_work number) read_order d)))
        | inr u ↦ inr u
      ]

  pub update_status-Effect :
      (ref : Text) (payload : OrderStatusUpdate) → Effect (update_status call ref payload d).1.shop
  unfolding update_status
  update_status-Effect ref payload =
      let work : OrderStatus → Exec Database OrderRead =
        λ target. on_shop (move_work ref target payload.note) >>= λ o. pure (read_order o) in
      admin_write-elim call _ d Effect (inr (same-Untouched d.shop d.shop refl refl)) λ admin.
        elim (committed_after (validate_status payload.status) work d) [
          | inl (target, e) ↦ inl (
              subst (λ r. Step d.shop r.1.shop) (sym e)
                (moves (env_of call d) ref target payload.note
                  (committed_shop (move_work ref target payload.note) read_order d)))
          | inr u ↦ inr u
        ]

  pub adjust_inventory-Effect :
      (v : ℕ) (payload : InventoryAdjustment) → Effect (adjust_inventory call v payload d).1.shop
  unfolding adjust_inventory
  adjust_inventory-Effect v payload =
      admin_write-elim call _ d Effect (inr (same-Untouched d.shop d.shop refl refl)) λ admin. inl (
        adjusts v payload.delta payload.reason payload.note (
          committed_shop (λ x. on_stock (adjust v payload.delta payload.reason payload.note))
            (read_item v) d))
