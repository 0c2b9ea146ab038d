-- ===== src/Exec.antt =====
-- Service methods: they read and write the state of the session and may raise. What was written
-- before a raise stays in the session; the transaction around it decides what is kept.
use neo_store.Result.{err, ok, Result}
use neo_store.Prelude.{
  Bool, Option, none, some, if◌then◌else◌, List, [], ◌∷◌, ◌≡◌, refl, false, true,
}
use neo_store.Errors.{Exception}

abbrev pub Exec : Type 0 → Type 0 → Type 0
Exec S A = S → Result A × S

module _ {S A : Type 0} where
  abbrev pub pure : A → Exec S A
  pure a s = (ok a, s)

  abbrev pub raise : Exception → Exec S A
  raise e s = (err e, s)

  abbrev pub gets : (S → A) → Exec S A
  gets f s = (ok (f s), s)

  abbrev pub lift : Result A → Exec S A
  lift r s = (r, s)

  -- The value, or a raise on `None`.
  abbrev pub or_raise : Option A → Exception → Exec S A
  or_raise none e = raise e
  or_raise (some a) e = pure a

abbrev pub modify : {S : Type 0} → (S → S) → Exec S (Unit {0})
modify f s = (ok tt, f s)

abbrev pub raise_if : {S : Type 0} → Bool → Exception → Exec S (Unit {0})
raise_if c e s = (if c then err e else ok tt, s)

infixl 5 ◌>>=◌ ◌>>◌
abbrev pub ◌>>=◌ : {S A B : Type 0} → Exec S A → (A → Exec S B) → Exec S B
◌>>=◌ m f s = let (r, s') = m s in elim r [ ok a ↦ f a s' | err e ↦ (err e, s') ]

abbrev pub ◌>>◌ : {S A B : Type 0} → Exec S A → Exec S B → Exec S B
m >> k = m >>= λ _. k

-- `for x in xs: body(x)`
pub for_each : {S A : Type 0} → (A → Exec S (Unit {0})) → List A → Exec S (Unit {0})
for_each body [] = pure tt
for_each body (x ∷ xs) = let rest = for_each body xs in do body x; rest

-- `session.commit()` at the end of a handler, or the rollback when the session is closed after
-- a raise; `rolled_back` is what a rollback leaves of the state before and the state at the raise.
unfoldable pub transaction : {S A : Type 0} → (S → S → S) → Exec S A → Exec S A
transaction rolled_back m s =
    let (r, s') = m s in elim r [ ok a ↦ (ok a, s') | err e ↦ (err e, rolled_back s s') ]

continue-eq-ok :
    {S A B : Type 0} (r : Result A × S) (f : A → Exec S B) {b : B} {t : S}
    → (elim r.0 as (λ x. Result B × S) [ ok a ↦ f a r.1 | err e ↦ (err e, r.1) ]) ≡ (ok b, t)
    → (a : A) × (s : S) × (r ≡ (ok a, s)) × (f a s ≡ (ok b, t))
continue-eq-ok (ok a, s) f h = (a, s, refl, h)
continue-eq-ok (err e, s) f h = cc

-- Inversion of a successful bind.
pub bind-eq-ok :
    {S A B : Type 0} (m : Exec S A) (f : A → Exec S B) (s : S) {b : B} {t : S}
    → (m >>= f) s ≡ (ok b, t)
    → (a : A) × (s' : S) × (m s ≡ (ok a, s')) × (f a s' ≡ (ok b, t))
bind-eq-ok m f s h = continue-eq-ok (m s) f h

pub raise_if-eq-ok :
    {S B : Type 0} (c : Bool) (e : Exception) (m : Exec S B) (s : S) {b : B} {t : S}
    → (raise_if c e >> m) s ≡ (ok b, t)
    → (c ≡ false) × (m s ≡ (ok b, t))
raise_if-eq-ok true e m s h = cc
raise_if-eq-ok false e m s h = (refl, h)

pub lift-eq-ok :
    {S A B : Type 0} (r : Result A) (f : A → Exec S B) (s : S) {b : B} {t : S}
    → (lift r >>= f) s ≡ (ok b, t)
    → (a : A) × (r ≡ ok a) × (f a s ≡ (ok b, t))
lift-eq-ok (ok a) f s h = (a, refl, h)
lift-eq-ok (err e) f s h = cc

-- A call that succeeds is committed.
pub transaction-eq-ok :
    {S A : Type 0} (rolled_back : S → S → S) (m : Exec S A) (s : S) {a : A} {t : S}
    → m s ≡ (ok a, t)
    → t ≡ (transaction rolled_back m s).1
unfolding transaction
transaction-eq-ok rolled_back m s h = cc

continue-err :
    {S A B : Type 0} (r : Result A × S) (f : A → Exec S B) {e : Exception}
    → r.0 ≡ err e
    → (elim r.0 as (λ x. Result B × S) [ ok a ↦ f a r.1 | err e ↦ (err e, r.1) ]) ≡ (err e, r.1)
continue-err (ok a, s) f h = cc
continue-err (err e, s) f h = cc

-- What raises is all that runs.
pub bind-err :
    {S A B : Type 0} (m : Exec S A) (f : A → Exec S B) (s : S) {e : Exception}
    → (m s).0 ≡ err e
    → (m >>= f) s ≡ (err e, (m s).1)
bind-err m f s h = continue-err (m s) f h

continue-pure_state :
    {S A B : Type 0} (r : Result A × S) (view : A → B)
    → (elim r.0 as (λ x. Result B × S) [ ok a ↦ pure (view a) r.1 | err e ↦ (err e, r.1) ]).1 ≡ r.1
continue-pure_state (ok a, s) view = refl
continue-pure_state (err e, s) view = refl

-- A view of the result leaves the state alone.
pub bind-pure_state :
    {S A B : Type 0} (m : Exec S A) (view : A → B) (s : S)
    → ((m >>= λ a. pure (view a)) s).1 ≡ (m s).1
bind-pure_state m view s = continue-pure_state (m s) view

continue-lift_state :
    {S A B : Type 0} (r : Result A × S) (view : A → Result B)
    → (elim r.0 as (λ x. Result B × S) [ ok a ↦ lift (view a) r.1 | err e ↦ (err e, r.1) ]).1 ≡ r.1
continue-lift_state (ok a, s) view = refl
continue-lift_state (err e, s) view = refl

-- Neither does a check of the result.
pub bind-lift_state :
    {S A B : Type 0} (m : Exec S A) (view : A → Result B) (s : S)
    → ((m >>= λ a. lift (view a)) s).1 ≡ (m s).1
bind-lift_state m view s = continue-lift_state (m s) view
