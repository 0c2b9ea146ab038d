-- ===== src/Http/Sessions.antt =====
-- What the session of a request leaves of the database, for any handler.
use neo_store.Security.{AdminUser}
use neo_store.Errors.{Exception}
use neo_store.Result.{Result, err, ok, Result-cases}
use neo_store.Exec.{Exec, ◌>>=◌, transaction, gets, bind-err}
use neo_store.Http.{Database, committed, uncommitted, rolled_back, Call, admin_read, admin_write}
use neo_store.Prelude.{refl, ◌≡◌, inl, arith, inr, subst, sym, ◌∙◌, ap}

-- The tables of the two are the same; the gateway's intents may differ.
abbrev pub SameTables : Database → Database → Type 0
SameTables d e = e ≡ rolled_back d e

-- Where the handler raises, the tables are as they were.
abbrev pub IsAtomic : {A : Type 0} → Exec Database A → Type 0
IsAtomic m = (d : Database) (x : Exception) → (m d).0 ≡ err x → SameTables d (m d).1

from_committed :
    {A : Type 0} (r : Result A × Database) (d : Database) (x : Exception)
    → (elim r.0 as (λ q. Result A × Database) [
      | ok a ↦ (ok a, r.1)
      | err e ↦ (err e, rolled_back d r.1)
    ]).0
      ≡ err x
    → SameTables d
        (elim r.0 as (λ q. Result A × Database) [
          | ok a ↦ (ok a, r.1)
          | err e ↦ (err e, rolled_back d r.1)
        ]).1
from_committed (ok a, e) d x h = cc
from_committed (err y, e) d x h = refl

pub committed-IsAtomic : {A : Type 0} (m : Exec Database A) → IsAtomic (committed m)
unfolding committed transaction
committed-IsAtomic m d x h = from_committed (m d) d x h

pub uncommitted_same :
    {A : Type 0} (m : Exec Database A) (d : Database) → SameTables d (uncommitted m d).1
unfolding uncommitted
uncommitted_same m d = refl

-- A session that is committed and then only read from.
pub then_read-IsAtomic :
    {A B : Type 0} (m : Exec Database A) (view : A → Database → B)
    → IsAtomic m
    → IsAtomic (m >>= λ a. uncommitted (gets (view a)))
unfolding uncommitted
then_read-IsAtomic m view atomic d x h = elim (Result-cases (m d).0) [
  | inl (a, e) ↦ absurd (ground arith)
  | inr (y, e) ↦
      subst (λ r. SameTables d r.1) (sym (bind-err m (λ a. uncommitted (gets (view a))) d e))
        (atomic d y e)
]

pub uncommitted-IsAtomic : {A : Type 0} (m : Exec Database A) → IsAtomic (uncommitted m)
uncommitted-IsAtomic m d x h = uncommitted_same m d

module _ {A : Type 0} (call : Call) (run : AdminUser → Exec Database A) where
  pub admin_write-IsAtomic : IsAtomic (admin_write call run)
  unfolding admin_write
  admin_write-IsAtomic d x h = committed-IsAtomic _ d x h

  pub admin_read_same : (d : Database) → SameTables d (admin_read call run d).1
  unfolding admin_read
  admin_read_same d = uncommitted_same _ d

  pub admin_read-IsAtomic : IsAtomic (admin_read call run)
  admin_read-IsAtomic d x h = admin_read_same d

SameTables-trans : (d e f : Database) → SameTables d e → SameTables e f → SameTables d f
SameTables-trans d e f h g = g ∙ ap (λ x. rolled_back x f) h

same_after :
    {A B : Type 0} (r : Result A × Database) (f : A → Exec Database B) (d : Database)
    → ((a : A) (e : Database) → SameTables e (f a e).1)
    → SameTables d r.1
    → SameTables d
        (elim r.0 as (λ x. Result B × Database) [ ok a ↦ f a r.1 | err e ↦ (err e, r.1) ]).1
same_after (ok a, e) f d h same = SameTables-trans d e (f a e).1 same (h a e)
same_after (err x, e) f d h same = same

-- One read after the other.
pub then_read_same :
    {A B : Type 0} (m : Exec Database A) (f : A → Exec Database B) (d : Database)
    → ((a : A) (e : Database) → SameTables e (f a e).1)
    → SameTables d (m d).1
    → SameTables d ((m >>= f) d).1
then_read_same m f d h same = same_after (m d) f d h same
