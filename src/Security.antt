-- ===== src/Security.antt =====
-- backend/app/core/security.py, domain/admin/models.py and api/v1/admin/auth.py: the accounts of the
-- dashboard, their login, and the check of a bearer token. Password hashes and tokens are made by
-- bcrypt and python-jose, which are parameters. A time is a number of seconds.
pub mod Checks
pub mod Tokens
use neo_store.Errors.{plain_error, coded_error, unauthorized, invalid_credentials}
use neo_store.Result.{Result, ok, err, ◌>>=◌, ◌>>◌}
use neo_store.Prelude.Text.{Text, text, text_eq, lower}
use neo_store.Prelude.{
  ℕ, ◌+◌, ◌*◌, ◌==◌, Bool, false, not, ◌||◌, List, [], ◌∷◌, Option, none, some, find, is_empty,
  if◌then◌else◌,
}

pub record AdminUser : Type 0 where
  pub email : Text
  pub password_hash : Text
  pub role : Text
  pub is_active : Bool

-- The claims of a token; a claim that is absent is none.
pub record Claims : Type 0 where
  pub sub : Option Text
  pub role : Option Text
  pub iat : ℕ
  pub exp : ℕ

-- What the packages compute. `checkpw` is none where it raises; `jwt_decode` takes the time of the
-- call, which it holds against `exp`, and is none where it raises `JWTError`.
pub record Packages : Type 0 where
  pub checkpw : Text → Text → Option Bool
  pub jwt_encode : Claims → Text → Text → Text
  pub jwt_decode : ℕ → Text → Text → Text → Option Claims

-- The settings that the tokens depend on.
pub record TokenSettings : Type 0 where
  pub jwt_secret : Text
  pub jwt_algorithm : Text
  pub access_token_ttl_minutes : ℕ

-- `header.partition(" ")`, without the separator
abbrev pub partition : Text → Text × Text
partition [] = ([], [])
partition (c ∷ s) =
    let (scheme, token) = partition s in if c == 32 then ([], s) else (c ∷ scheme, token)

abbrev pub header_or_empty : Option Text → Text
header_or_empty none = []
header_or_empty (some header) = header

unfoldable pub find_admin : Text → List AdminUser → Option AdminUser
find_admin email admins = find (λ (u : AdminUser). text_eq u.email email) admins

-- The account that a query found, if there is one and it is active.
abbrev pub active_account : Option AdminUser → Result AdminUser
active_account none = err (plain_error unauthorized)
active_account (some user) = if user.is_active then ok user else err (plain_error unauthorized)

-- `if not subject: raise …`
abbrev pub subject_of : Option Text → Result Text
subject_of none = err (plain_error unauthorized)
subject_of (some subject) = if is_empty subject then err (plain_error unauthorized) else ok subject

-- The token of an `Authorization` header.
unfoldable pub bearer_token : Option Text → Result Text
bearer_token authorization =
    let (scheme, token) = partition (header_or_empty authorization) in
    if not (text_eq (lower scheme) (text "bearer")) || is_empty token
    then err (plain_error unauthorized)
    else ok token

module _ (packages : Packages) (settings : TokenSettings) where
  unfoldable pub verify_password : Text → Text → Bool
  verify_password raw hashed = elim (packages.checkpw raw hashed) [
    | some matches ↦ matches
    | none ↦ false
  ]

  unfoldable pub create_access_token : ℕ → Text → Text → Text
  create_access_token now subject role =
      packages.jwt_encode
        (record {
          sub = some subject;
          role = some role;
          iat = now;
          exp = now + 60 * settings.access_token_ttl_minutes;
        })
        settings.jwt_secret settings.jwt_algorithm

  unfoldable pub decode_token : ℕ → Text → Result Claims
  decode_token now token =
      elim (packages.jwt_decode now token settings.jwt_secret settings.jwt_algorithm) [
        | some payload ↦ ok payload
        | none ↦ err (plain_error unauthorized)
      ]

  -- `get_admin_user`, for the request's `Authorization` header
  unfoldable pub get_admin_user : ℕ → List AdminUser → Option Text → Result AdminUser
  get_admin_user now admins authorization = do
    token ← bearer_token authorization
    payload ← decode_token now token
    subject ← subject_of payload.sub
    active_account (find_admin subject admins)

  -- What `login` makes of the account that it found.
  abbrev pub check_login : Text → ℕ → Option AdminUser → Result Text
  check_login password now none = err (coded_error unauthorized invalid_credentials)
  check_login password now (some user) =
      if not user.is_active || not (verify_password password user.password_hash)
      then err (coded_error unauthorized invalid_credentials)
      else ok (create_access_token now user.email user.role)

  unfoldable pub login : ℕ → List AdminUser → Text → Text → Result Text
  login now admins email password = check_login password now (find_admin email admins)
