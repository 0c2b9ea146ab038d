-- ===== src/Security/Tokens.antt =====
-- What a login gives: a token that the administrator's requests are let in with, until it expires
-- (backend/app/core/security.py with backend/app/api/v1/admin/auth.py).
use neo_store.Errors.{Exception, coded_error, unauthorized, invalid_credentials, plain_error}
use neo_store.Result.{ok, err, >>=-eq-ok, RaisesOnly, Result-cases, >>=-RaisesOnly}
use neo_store.Prelude.Text.{Text, text, lower}
use neo_store.Security.{
  Packages, get_admin_user, login, TokenSettings, decode_token, find_admin, bearer_token, Claims,
  verify_password, create_access_token, AdminUser, subject_of,
}
use neo_store.Prelude.{
  ℕ, List, ◌≤◌, ◌≡◌, is_empty, false, some, ◌↔◌, Option-cases, true, arith, ◌+◌, ◌*◌, inl, inr,
  ◌++◌, Bool-cases, refl, not, ◌||◌, Option, ap, ◌⊎◌, ◌∙◌, ◌∷◌, sym, subst,
}
use neo_store.Security.Checks.{
  find_admin_email, bearer_token-token, bearer_token-RaisesOnly, subject_of-RaisesOnly,
  active_account-RaisesOnly, active_account-eq-ok, bearer_token-header, active_account-eq-ok,
  subject_of-eq-ok,
}

module _ (packages : Packages) (settings : TokenSettings) where
  -- What python-jose documents: a token that it encoded decodes to its claims under the same
  -- secret and algorithm until it expires, and is not empty.
  pub record IsJose : Type 0 where
    pub decode-encode :
        (claims : Claims) (now : ℕ)
        → now ≤ claims.exp
        → packages.jwt_decode now
            (packages.jwt_encode claims settings.jwt_secret settings.jwt_algorithm)
            settings.jwt_secret
            settings.jwt_algorithm
          ≡ some claims
    pub encode_nonempty :
        (claims : Claims)
        → is_empty (packages.jwt_encode claims settings.jwt_secret settings.jwt_algorithm) ≡ false

  -- The account behind an email and a password.
  pub record HasAccount (admins : List AdminUser) (email password : Text) (user : AdminUser)
      : Type 0 where
    pub found : find_admin email admins ≡ some user
    pub is_active : user.is_active ≡ true
    pub password_matches : packages.checkpw password user.password_hash ≡ some true

  login-HasAccount :
      (now : ℕ) (admins : List AdminUser) (email password : Text) {token : Text}
      → login packages settings now admins email password ≡ ok token
      → (user : AdminUser) × HasAccount admins email password user
        × (token ≡ create_access_token packages settings now user.email user.role)
  unfolding login verify_password
  login-HasAccount now admins email password {token} h =
      elim (Option-cases (find_admin email admins)) [
        | inl e ↦ absurd (ground arith)
        | inr (user, e) ↦ elim (Option-cases (packages.checkpw password user.password_hash)) [
          | inl c ↦ absurd (ground arith)
          | inr (true, c) ↦ elim (Bool-cases user.is_active) [
            | inl a ↦
                (user, record { found = e; is_active = a; password_matches = c }, ground arith)
            | inr a ↦ absurd (ground arith)
          ]
          | inr (false, c) ↦ absurd (ground arith)
        ]
      ]

  HasAccount-login :
      (now : ℕ) (admins : List AdminUser) (email password : Text) {user : AdminUser}
      → HasAccount admins email password user
      → login packages settings now admins email password
        ≡ ok (create_access_token packages settings now user.email user.role)
  unfolding login verify_password
  HasAccount-login now admins email password {user} h =
      let e = h.found in let a = h.is_active in let c = h.password_matches in ground arith

  login_refused :
      (now : ℕ) (admins : List AdminUser) (email password : Text) {e : Exception}
      → login packages settings now admins email password ≡ err e
      → e ≡ coded_error unauthorized invalid_credentials
  unfolding login
  login_refused now admins email password h = elim (Option-cases (find_admin email admins)) [
    | inl f ↦ ground arith
    | inr (user, f) ↦
        elim (Bool-cases (
          not user.is_active
          || not (verify_password packages settings password user.password_hash))) [
            | inl c ↦ ground arith
            | inr c ↦ absurd (ground arith)
          ]
  ]

  abbrev claims_of : ℕ → Text → Text → Claims
  claims_of now subject role = record {
    sub = some subject;
    role = some role;
    iat = now;
    exp = now + 60 * settings.access_token_ttl_minutes;
  }

  decode_token-create_access_token :
      (jose : IsJose) (now later : ℕ) (subject role : Text)
      → later ≤ now + 60 * settings.access_token_ttl_minutes
      → decode_token packages settings later
          (create_access_token packages settings now subject role)
        ≡ ok (claims_of now subject role)
  unfolding decode_token create_access_token
  decode_token-create_access_token jose now later subject role in_time =
      let same = jose.decode-encode (claims_of now subject role) later in_time in ground arith

  create_access_token_nonempty :
      (jose : IsJose) (now : ℕ) (subject role : Text)
      → is_empty (create_access_token packages settings now subject role) ≡ false
  unfolding create_access_token
  create_access_token_nonempty jose now subject role =
      jose.encode_nonempty (claims_of now subject role)

  admits :
      (now : ℕ) (admins : List AdminUser) (authorization : Option Text) {token email : Text}
      {claims : Claims} {user : AdminUser}
      → bearer_token authorization ≡ ok token
      → decode_token packages settings now token ≡ ok claims
      → claims.sub ≡ some email
      → is_empty email ≡ false
      → find_admin email admins ≡ some user
      → user.is_active ≡ true
      → get_admin_user packages settings now admins authorization ≡ ok user
  unfolding get_admin_user
  admits now admins authorization read decoded sub nonempty found active =
      rw (read, decoded, sub, nonempty, found, active) refl

  decode_token-RaisesOnly :
      (now : ℕ) (token : Text)
      → RaisesOnly (plain_error unauthorized) (decode_token packages settings now token)
  unfolding decode_token
  decode_token-RaisesOnly now token raised h =
      elim (Option-cases
        (packages.jwt_decode now token settings.jwt_secret settings.jwt_algorithm)) [
          | inl e ↦ ground arith
          | inr (payload, e) ↦ absurd (ground arith)
        ]

  get_admin_user-RaisesOnly :
      (now : ℕ) (admins : List AdminUser) (authorization : Option Text)
      → RaisesOnly
          (plain_error unauthorized)
          (get_admin_user packages settings now admins authorization)
  unfolding get_admin_user
  get_admin_user-RaisesOnly now admins authorization =
      >>=-RaisesOnly _ _ _ (bearer_token-RaisesOnly authorization) λ token.
        >>=-RaisesOnly _ _ _ (decode_token-RaisesOnly now token) λ payload.
          >>=-RaisesOnly _ _ _ (subject_of-RaisesOnly payload.sub)
            λ subject. active_account-RaisesOnly (find_admin subject admins)

  -- The header carries a bearer token that python-jose decodes, with the secret, the algorithm and the
  -- time of the request, to claims whose subject is the email of an account that is active.
  pub record Carries (now : ℕ) (admins : List AdminUser) (authorization : Option Text)
      (user : AdminUser) : Type 0 where
    pub scheme : Text
    pub token : Text
    pub claims : Claims
    pub header : authorization ≡ some (scheme ++ 32 ∷ token)
    pub bearer : lower scheme ≡ text "bearer"
    pub decoded :
        packages.jwt_decode now token settings.jwt_secret settings.jwt_algorithm ≡ some claims
    pub subject : claims.sub ≡ some user.email
    pub found : find_admin user.email admins ≡ some user
    pub is_active : user.is_active ≡ true

  decode_token-eq-ok :
      (now : ℕ) (token : Text) {claims : Claims}
      → decode_token packages settings now token ≡ ok claims
      → packages.jwt_decode now token settings.jwt_secret settings.jwt_algorithm ≡ some claims
  unfolding decode_token
  decode_token-eq-ok now token h =
      elim (Option-cases
        (packages.jwt_decode now token settings.jwt_secret settings.jwt_algorithm)) [
          | inl e ↦ absurd (ground arith)
          | inr (payload, e) ↦ ground arith
        ]

  get_admin_user-Carries :
      (now : ℕ) (admins : List AdminUser) (authorization : Option Text) {user : AdminUser}
      → get_admin_user packages settings now admins authorization ≡ ok user
      → Carries now admins authorization user
  unfolding get_admin_user
  get_admin_user-Carries now admins authorization {user} h =
      let (token, e, h1) = >>=-eq-ok (bearer_token authorization) _ h in
      let (payload, e1, h2) = >>=-eq-ok (decode_token packages settings now token) _ h1 in
      let (subject, e2, h3) = >>=-eq-ok (subject_of payload.sub) _ h2 in
      let (scheme, header, bearer) = bearer_token-header authorization e in
      let (found, active) = active_account-eq-ok (find_admin subject admins) h3 in
      let same : user.email ≡ subject = find_admin_email subject admins found in
      record {
        scheme = scheme;
        token = token;
        claims = payload;
        header = header;
        bearer = bearer;
        decoded = decode_token-eq-ok now token e1;
        subject = subject_of-eq-ok payload.sub e2 ∙ ap some (sym same);
        found = subst (λ x. find_admin x admins ≡ some user) (sym same) found;
        is_active = active;
      }

  -- Whoever is let in carries a token of theirs; whoever is not gets the one exception.
  pub get_admin_user_outcome :
      (now : ℕ) (admins : List AdminUser) (authorization : Option Text)
      → ((user : AdminUser) × (get_admin_user packages settings now admins authorization ≡ ok user)
          × Carries now admins authorization user)
        ⊎ (get_admin_user packages settings now admins authorization
            ≡ err (plain_error unauthorized))
  get_admin_user_outcome now admins authorization =
      elim (Result-cases (get_admin_user packages settings now admins authorization)) [
        | inl (user, e) ↦ inl (user, e, get_admin_user-Carries now admins authorization e)
        | inr (x, e) ↦ inr (e ∙ ap err (get_admin_user-RaisesOnly now admins authorization x e))
      ]

-- A login succeeds exactly when an account has the email, is active and bcrypt accepts the
-- password for its hash; every other login raises the one exception INVALID_CREDENTIALS.
pub login_iff :
    (packages : Packages) (settings : TokenSettings) (now : ℕ) (admins : List AdminUser)
    (email password : Text)
    → (((token : Text) × (login packages settings now admins email password ≡ ok token))
        ↔ ((user : AdminUser) × HasAccount packages settings admins email password user))
      × ((e : Exception)
          → login packages settings now admins email password ≡ err e
          → e ≡ coded_error unauthorized invalid_credentials)
login_iff packages settings now admins email password = (
  (
    λ h.
        let (user, a, e) = login-HasAccount packages settings now admins email password h.1 in
        (user, a),
    λ h. (_, HasAccount-login packages settings now admins email password h.1),
  ),
  λ e h. login_refused packages settings now admins email password h,
)

-- The token of a login lets requests in, as the account that has logged in, until it expires: with
-- python-jose as it documents itself, for an email that is not empty.
pub login_admits :
    (packages : Packages) (settings : TokenSettings) (now later : ℕ) (admins : List AdminUser)
    (email password : Text) {token : Text}
    → IsJose packages settings
    → is_empty email ≡ false
    → later ≤ now + 60 * settings.access_token_ttl_minutes
    → login packages settings now admins email password ≡ ok token
    → (user : AdminUser) × HasAccount packages settings admins email password user
      × (get_admin_user packages settings later admins (some (text "Bearer " ++ token)) ≡ ok user)
login_admits packages settings now later admins email password {token} jose nonempty in_time h =
    let (user, account, made) = login-HasAccount packages settings now admins email password h in
    let same = find_admin_email email admins account.found in
    let filled : is_empty token ≡ false =
      rw made (create_access_token_nonempty packages settings jose now user.email user.role) in
    let claims = claims_of packages settings now user.email user.role in
    let decoded : decode_token packages settings later token ≡ ok claims = rw made (
      decode_token-create_access_token packages settings jose now later user.email user.role
        in_time) in
    (
      user,
      account,
      admits packages settings later admins (some (text "Bearer " ++ token)) {claims = claims}
          (bearer_token-token token filled) decoded (ap some same) nonempty account.found
          account.is_active,
    )
