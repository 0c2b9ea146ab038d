-- ===== src/Order/Shop.antt =====
-- The state that the order service works on, and what it reads: the tables of stock, carts and
-- orders, and the payment gateway's intents.
use neo_store.Locale.{Locale}
use neo_store.Payment.{Intents}
use neo_store.Inventory.{Stock}
use neo_store.Order.Models.{Order}
use neo_store.Exec.{Exec}
use neo_store.Prelude.Text.{Text, text_eq}
use neo_store.Cart.{Shelf, Cart}
use neo_store.Prelude.Table
use mathlib.Core.Option
use neo_store.Prelude.{ℕ, List, Option, Bool, is_some, or_else, false, find, some, none}

pub record Shop : Type 0 where
  pub stock : Stock
  pub carts : List Cart
  pub orders : List Order
  pub intents : Intents

-- The tables that are only read, `settings.default_locale`, and `uuid.UUID` as far as it parses.
pub record Env : Type 0 where
  pub shelf : Shelf
  pub locales : List Locale
  pub configured_locale : Text
  pub parse_uuid : Text → Option ℕ

-- What one checkout draws at random: the order's id, the parts of its number, and the hex digits
-- of the intent's reference.
pub record Draws : Type 0 where
  pub order_id : ℕ
  pub stamp : Text
  pub short : ℕ → Text
  pub long : Text
  pub intent_hex : Text

module _ {A : Type 0} where
  abbrev pub on_stock : Exec Stock A → Exec Shop A
  on_stock m s = let (r, t) = m s.stock in (r, record s { stock = t })

  abbrev pub on_carts : Exec (List Cart) A → Exec Shop A
  on_carts m s = let (r, t) = m s.carts in (r, record s { carts = t })

  abbrev pub on_intents : Exec Intents A → Exec Shop A
  on_intents m s = let (r, t) = m s.intents in (r, record s { intents = t })

-- A rollback restores the tables; the gateway's intents live in the process and stay.
abbrev pub undone : Shop → Shop → Shop
undone s t = record s { intents = t.intents }

abbrev pub order_key : Order → ℕ
order_key o = o.id

-- The flush of an order that was added or changed.
unfoldable pub put_order : Order → Shop → Shop
put_order o s = record s { orders = Table.put order_key o s.orders }

-- `OrderRepository.get_by_number`
unfoldable pub get_by_number : Text → Shop → Option Order
get_by_number number s = find (λ o. text_eq o.number number) s.orders

abbrev pub has_key : Text → Option Text → Bool
has_key key none = false
has_key key (some k) = text_eq k key

-- `OrderRepository.get_by_idempotency_key`
unfoldable pub get_by_idempotency_key : Text → Shop → Option Order
get_by_idempotency_key key s = find (λ o. has_key key o.idempotency_key) s.orders

-- `OrderRepository.number_exists`
unfoldable pub number_exists : Text → Shop → Bool
unfolding get_by_number
number_exists number s = is_some (get_by_number number s)

-- The test of `get_by_ref`: the reference is a UUID of an order, or its number.
unfoldable pub find_by_ref : Env → Text → Shop → Option Order
find_by_ref env ref s =
    or_else (Option.bind (env.parse_uuid ref) (λ id. Table.get order_key id s.orders))
      (get_by_number ref s)
