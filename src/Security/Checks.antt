-- ===== src/Security/Checks.antt =====
-- What the checks of a request let through (backend/app/core/security.py).
use neo_store.Errors.{unauthorized, plain_error}
use neo_store.Result.{ok, RaisesOnly}
use neo_store.Prelude.Text.{Text, lower, text_eq_iff, text, text_eq, lower_char}
use neo_store.Security.{
  find_admin, bearer_token, AdminUser, active_account, partition, subject_of, header_or_empty,
}
use neo_store.Prelude.{
  List, ◌≡◌, is_empty, false, some, true, arith, inl, find_passes, inr, ◌++◌, Bool-cases, refl, not,
  ◌||◌, Option, none, ◌∷◌, [], ap,
}

pub find_admin_email :
    (email : Text) (admins : List AdminUser) {user : AdminUser}
    → find_admin email admins ≡ some user
    → user.email ≡ email
unfolding find_admin
find_admin_email email admins {user} e =
    (text_eq_iff user.email email).0
      (find_passes (λ (u : AdminUser). text_eq u.email email) admins e)

pub bearer_token-token :
    (token : Text)
    → is_empty token ≡ false
    → bearer_token (some (text "Bearer " ++ token)) ≡ ok token
unfolding bearer_token lower lower_char
bearer_token-token token n = rw n refl

pub bearer_token-RaisesOnly :
    (authorization : Option Text)
    → RaisesOnly (plain_error unauthorized) (bearer_token authorization)
unfolding bearer_token
bearer_token-RaisesOnly authorization raised h =
    let parts = partition (header_or_empty authorization) in
    elim (Bool-cases (not (text_eq (lower parts.0) (text "bearer")) || is_empty parts.1)) [
      | inl c ↦ ground arith
      | inr c ↦ absurd (ground arith)
    ]

pub subject_of-RaisesOnly :
    (sub : Option Text) → RaisesOnly (plain_error unauthorized) (subject_of sub)
subject_of-RaisesOnly none raised h = cc
subject_of-RaisesOnly (some subject) raised h = elim (Bool-cases (is_empty subject)) [
  | inl c ↦ ground arith
  | inr c ↦ absurd (ground arith)
]

pub active_account-RaisesOnly :
    (user : Option AdminUser) → RaisesOnly (plain_error unauthorized) (active_account user)
active_account-RaisesOnly none raised h = cc
active_account-RaisesOnly (some user) raised h = elim (Bool-cases user.is_active) [
  | inl c ↦ absurd (ground arith)
  | inr c ↦ ground arith
]

-- What stands before and after the first blank.
partition-append :
    (header : Text)
    → is_empty (partition header).1 ≡ false
    → header ≡ (partition header).0 ++ 32 ∷ (partition header).1
partition-append [] h = cc
partition-append (c ∷ s) h = let ih = partition-append s in ground arith

some_header :
    (authorization : Option Text) (scheme token : Text)
    → header_or_empty authorization ≡ scheme ++ 32 ∷ token
    → authorization ≡ some (scheme ++ 32 ∷ token)
some_header none [] token h = cc
some_header none (c ∷ scheme) token h = cc
some_header (some header) scheme token h = ap some h

-- A token that was read stands in the header after the scheme "bearer".
pub bearer_token-header :
    (authorization : Option Text) {token : Text}
    → bearer_token authorization ≡ ok token
    → (scheme : Text) × (authorization ≡ some (scheme ++ 32 ∷ token))
      × (lower scheme ≡ text "bearer")
unfolding bearer_token
bearer_token-header authorization {token} h =
    let header = header_or_empty authorization in
    let parts = partition header in
    elim (Bool-cases (not (text_eq (lower parts.0) (text "bearer")) || is_empty parts.1)) [
      | inl c ↦ absurd (ground arith)
      | inr c ↦
          let full : is_empty parts.1 ≡ false = ground arith in
          let bearer : text_eq (lower parts.0) (text "bearer") ≡ true = ground arith in
          let same : parts.1 ≡ token = ground arith in
          (
            parts.0,
            some_header authorization parts.0 token (rw (← same) (partition-append header full)),
            (text_eq_iff (lower parts.0) (text "bearer")).0 bearer,
          )
    ]

pub subject_of-eq-ok :
    (sub : Option Text) {email : Text} → subject_of sub ≡ ok email → sub ≡ some email
subject_of-eq-ok none h = cc
subject_of-eq-ok (some subject) h = ground arith

pub active_account-eq-ok :
    (found : Option AdminUser) {user : AdminUser}
    → active_account found ≡ ok user
    → (found ≡ some user) × (user.is_active ≡ true)
active_account-eq-ok none h = cc
active_account-eq-ok (some u) {user} h = elim (Bool-cases u.is_active) [
  | inl c ↦ (ground arith, ground arith)
  | inr c ↦ absurd (ground arith)
]
