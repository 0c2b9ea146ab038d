-- ===== src/Result.antt =====
-- The outcome of a Python call: a value, or an exception in flight.
use neo_store.Errors.{Exception}
use neo_store.Prelude.{◌≡◌, refl, ◌⊎◌, inl, inr}

pub data Result {ℓ} (A : Type ℓ) : Type ℓ where
  err : Exception → Result A
  ok : A → Result A

pub Result-cases {ℓ} :
    {A : Type ℓ} (r : Result A) → ((a : A) × (r ≡ ok a)) ⊎ ((e : Exception) × (r ≡ err e))
Result-cases (ok a) = inl (a, refl)
Result-cases (err e) = inr (e, refl)

-- The call goes on with the value; an exception passes through.
infixl 5 ◌>>=◌
abbrev pub ◌>>=◌ {κ ℓ} : {B : Type κ} {A : Type ℓ} → Result A → (A → Result B) → Result B
outcome >>= next = elim outcome [ err raised ↦ err raised | ok value ↦ next value ]

-- Inversion of a successful bind.
pub >>=-eq-ok {κ ℓ} :
    {B : Type κ} {A : Type ℓ} (call : Result A) (next : A → Result B) {last : B}
    → (call >>= next) ≡ ok last
    → (value : A) × (call ≡ ok value) × (next value ≡ ok last)
>>=-eq-ok (err raised) next h = cc
>>=-eq-ok (ok value) next h = (value, refl, h)

-- A check that raises or lets the call go on.
infixl 5 ◌>>◌
abbrev pub ◌>>◌ {κ} : {B : Type κ} → Result (Unit {0}) → Result B → Result B
check >> rest = check >>= λ passed. rest

-- Every exception of the call is this one.
abbrev pub RaisesOnly {ℓ} : {A : Type ℓ} → Exception → Result A → Type ℓ
RaisesOnly e call = (raised : Exception) → call ≡ err raised → raised ≡ e

pub >>=-RaisesOnly {κ ℓ} :
    {B : Type κ} {A : Type ℓ} (e : Exception) (call : Result A) (next : A → Result B)
    → RaisesOnly e call
    → ((value : A) → RaisesOnly e (next value))
    → RaisesOnly e (call >>= next)
>>=-RaisesOnly e (err x) next here later raised h = here raised (cc h)
>>=-RaisesOnly e (ok value) next here later raised h = later value raised h
