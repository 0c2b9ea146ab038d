-- ===== src/Http/Books.antt =====
-- What the requests do to the shop: an order's request is a step of the trade, and every other one
-- leaves the orders alone and keeps the stock's reservations (backend/app/api/v1).
use neo_store.Prelude.Text.{text}
use neo_store.Errors.{Exception}
use neo_store.Order.Outstanding.{outstanding}
use neo_store.Security.{AdminUser, get_admin_user}
use neo_store.Catalog.Stocked.{StockKept, same-StockKept, StockKept-trans}
use neo_store.Catalog.Store.{Store}
use neo_store.Http.Sessions.{SameTables}
use neo_store.Order.Accounts.{IsBalanced}
use neo_store.Order.Shop.{Shop, undone}
use neo_store.Result.{Result, ok, err}
use neo_store.Exec.{Exec, transaction, ◌>>=◌, pure, lift}
use neo_store.Http.{
  Database, admin_write, committed, on_shop, require_admin, rolled_back, Call, store_of, on_store,
}
use neo_store.Prelude.{◌≡◌, ap, ◌∙◌, refl, sym, inl, ◌⊎◌, inr, subst}

-- The orders are the same, and the stock reserves the same units within its bounds.
pub record Untouched (s t : Shop) : Type 0 where
  pub orders : t.orders ≡ s.orders
  pub stock : StockKept s.stock t.stock

pub Untouched-IsBalanced : (s t : Shop) → Untouched s t → IsBalanced s → IsBalanced t
Untouched-IsBalanced s t u b = record {
  keyed = rw u.orders b.keyed;
  sound = rw u.orders b.sound;
  bounded = u.stock.bounded b.bounded;
  balanced = λ v. u.stock.reserved v ∙ b.balanced v ∙ ap (outstanding v) (sym u.orders);
}

pub same-Untouched : (s t : Shop) → t.orders ≡ s.orders → t.stock ≡ s.stock → Untouched s t
same-Untouched s t o e = record { orders = o; stock = same-StockKept s.stock t.stock e }

pub SameTables-Untouched : (d e : Database) → SameTables d e → Untouched d.shop e.shop
SameTables-Untouched d e h =
    same-Untouched d.shop e.shop (ap (λ x. x.shop.orders) h) (ap (λ x. x.shop.stock) h)

from_committed :
    {A : Type 0} (r : Result A × Database) (d : Database)
    → Untouched d.shop r.1.shop
    → Untouched d.shop
        (elim r.0 as (λ q. Result A × Database) [
          | ok a ↦ (ok a, r.1)
          | err e ↦ (err e, rolled_back d r.1)
        ]).1.shop
from_committed (ok a, e) d u = u
from_committed (err x, e) d u = same-Untouched _ _ refl refl

-- A commit of what has touched nothing.
pub committed-Untouched :
    {A : Type 0} (m : Exec Database A) (d : Database)
    → Untouched d.shop (m d).1.shop
    → Untouched d.shop (committed m d).1.shop
unfolding committed transaction
committed-Untouched m d u = from_committed (m d) d u

admitted :
    {A : Type 0} (r : Result AdminUser) (run : AdminUser → Exec Database A) (d : Database)
    → ((admin : AdminUser) × (committed ((λ e. (r, e)) >>= run) d ≡ committed (run admin) d))
      ⊎ ((x : Exception) × (committed ((λ e. (r, e)) >>= run) d ≡ (err x, d)))
unfolding committed transaction
admitted (ok admin) run d = inl (admin, refl)
admitted (err x) run d = inr (x, refl)

-- A handler for administrators runs for one, or it raises and changes nothing.
admin_write-cases :
    {A : Type 0} (call : Call) (run : AdminUser → Exec Database A) (d : Database)
    → ((admin : AdminUser) × (admin_write call run d ≡ committed (run admin) d))
      ⊎ ((x : Exception) × (admin_write call run d ≡ (err x, d)))
unfolding admin_write require_admin committed transaction
admin_write-cases call run d =
    admitted
      (get_admin_user call.packages call.settings.tokens call.now d.admins
        (call.headers (text "authorization")))
      run d

pub admin_write-elim :
    {A : Type 0} (call : Call) (run : AdminUser → Exec Database A) (d : Database)
    (P : Shop → Type 0)
    → P d.shop
    → ((admin : AdminUser) → P (committed (run admin) d).1.shop)
    → P (admin_write call run d).1.shop
admin_write-elim call run d P refused admitted = elim (admin_write-cases call run d) [
  | inl (admin, e) ↦ subst (λ r. P r.1.shop) (sym e) (admitted admin)
  | inr (x, e) ↦ subst (λ r. P r.1.shop) (sym e) refused
]

pub admin_write-Untouched :
    {A : Type 0} (call : Call) (run : AdminUser → Exec Database A) (d : Database)
    → ((admin : AdminUser) → Untouched d.shop (run admin d).1.shop)
    → Untouched d.shop (admin_write call run d).1.shop
admin_write-Untouched call run d u =
    admin_write-elim call run d (Untouched d.shop) (same-Untouched d.shop d.shop refl refl)
      (λ admin. committed-Untouched (run admin) d (u admin))

-- The work on the store, in a handler that commits.
pub on_store-Untouched :
    {A : Type 0} (m : Exec Store A) (d : Database)
    → StockKept d.shop.stock (m (store_of d)).1.stock
    → Untouched d.shop (on_store m d).1.shop
on_store-Untouched m d k = record { orders = refl; stock = k }

from_shop :
    {A B : Type 0} (r : Result A × Shop) (view : A → B) (d : Database)
    → (transaction rolled_back
        ((λ (e : Database). (r.0, record e { shop = r.1 })) >>= λ a. pure (view a))
        d).1.shop
      ≡ (transaction undone (λ (s : Shop). r) d.shop).1
unfolding transaction
from_shop (ok a, t) view d = refl
from_shop (err x, t) view d = refl

-- A handler that commits the work of the order service is a transaction of the shop.
pub committed_shop :
    {A B : Type 0} (m : Database → Exec Shop A) (view : A → B) (d : Database)
    → (committed (on_shop m >>= λ a. pure (view a)) d).1.shop ≡ (transaction undone (m d) d.shop).1
unfolding committed transaction
committed_shop m view d = from_shop (m d d.shop) view d

-- A check that stands before the work lets it run, or leaves the shop alone.
pub committed_after :
    {A B : Type 0} (r : Result A) (work : A → Exec Database B) (d : Database)
    → ((a : A) × (committed (lift r >>= work) d ≡ committed (work a) d))
      ⊎ Untouched d.shop (committed (lift r >>= work) d).1.shop
unfolding committed transaction
committed_after (ok a) work d = inl (a, refl)
committed_after (err x) work d = inr (same-Untouched d.shop d.shop refl refl)

Untouched-trans : (s t u : Shop) → Untouched s t → Untouched t u → Untouched s u
Untouched-trans s t u a b = record {
  orders = b.orders ∙ a.orders;
  stock = StockKept-trans s.stock t.stock u.stock a.stock b.stock;
}

read_after :
    {A B : Type 0} (r : Result A × Database) (f : A → Exec Database B) (s : Shop)
    → ((a : A) (e : Database) → SameTables e (f a e).1)
    → Untouched s r.1.shop
    → Untouched s
        (elim r.0 as (λ x. Result B × Database) [ ok a ↦ f a r.1 | err e ↦ (err e, r.1) ]).1.shop
read_after (ok a, e) f s h u =
    Untouched-trans s e.shop _ u (SameTables-Untouched e (f a e).1 (h a e))
read_after (err x, e) f s h u = u

-- What only reads may follow.
pub then_read-Untouched :
    {A B : Type 0} (m : Exec Database A) (f : A → Exec Database B) (d : Database)
    → ((a : A) (e : Database) → SameTables e (f a e).1)
    → Untouched d.shop (m d).1.shop
    → Untouched d.shop ((m >>= f) d).1.shop
then_read-Untouched m f d h u = read_after (m d) f d.shop h u
