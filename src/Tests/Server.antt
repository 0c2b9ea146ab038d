-- ===== src/Tests/Server.antt =====
-- A server with the shop of the data, one administrator, a password check that compares, and tokens
-- that write their claims out.
use neo_store.Errors.{missing_greenlet}
use neo_store.Result.{err}
use neo_store.Currency.{unreachable}
use neo_store.Tests.Data.{shop, currencies, draws, mug, america, english}
use neo_store.Http.{Call, Database, Settings}
use neo_store.Security.{AdminUser, Claims, Packages, TokenSettings}
use neo_store.Prelude.Text.{Text, text, text_eq}
use neo_store.Security.Tokens.{IsJose}
use neo_store.Prelude.{
  ℕ, Option, none, ◌∷◌, ◌≡◌, [], some, suc, refl, zero, if◌then◌else◌, ◌≤◌, arith, leb, true, ◌+◌,
  ap, ◌∙◌,
}

write_text : Text → Text → Text
write_text [] rest = 0 ∷ rest
write_text (c ∷ s) rest = suc c ∷ write_text s rest

read_text : Text → Text × Text
read_text [] = ([], [])
read_text (zero ∷ rest) = ([], rest)
read_text (suc c ∷ rest) = let (s, t) = read_text rest in (c ∷ s, t)

read_text-write_text : (s rest : Text) → read_text (write_text s rest) ≡ (s, rest)
unfolding read_text write_text
read_text-write_text [] rest = refl
read_text-write_text (c ∷ s) rest = let ih = read_text-write_text s rest in cc ih

write_option : Option Text → Text → Text
unfolding write_text
write_option none rest = 0 ∷ rest
write_option (some s) rest = 1 ∷ write_text s rest

read_option : Text → Option Text × Text
unfolding read_text
read_option [] = (none, [])
read_option (zero ∷ rest) = (none, rest)
read_option (suc c ∷ rest) = let (s, t) = read_text rest in (some s, t)

read_option-write_option :
    (o : Option Text) (rest : Text) → read_option (write_option o rest) ≡ (o, rest)
unfolding read_option write_option
read_option-write_option none rest = refl
read_option-write_option (some s) rest = let e = read_text-write_text s rest in cc e

write_claims : Claims → Text
unfolding write_option
write_claims c = 1 ∷ c.iat ∷ c.exp ∷ write_option c.sub (write_option c.role [])

with_role : ℕ → ℕ → Option Text → Option Text × Text → Option Claims
with_role iat exp sub (role, rest) = some (record { sub = sub; role = role; iat = iat; exp = exp })

with_sub : ℕ → ℕ → Option Text × Text → Option Claims
unfolding with_role read_option
with_sub iat exp (sub, rest) = with_role iat exp sub (read_option rest)

read_claims : Text → Option Claims
unfolding read_option with_sub
read_claims (k ∷ iat ∷ exp ∷ rest) = with_sub iat exp (read_option rest)
read_claims (k ∷ iat ∷ []) = none
read_claims (k ∷ []) = none
read_claims [] = none

live_claims : ℕ → Option Claims → Option Claims
live_claims now none = none
live_claims now (some c) = if leb now c.exp then some c else none

unfoldable pub packages : Packages
unfolding write_claims read_claims live_claims
packages = record {
  checkpw = λ (raw hashed : Text). some (text_eq raw hashed);
  jwt_encode = λ (c : Claims) (secret algorithm : Text). write_claims c;
  jwt_decode = λ (now : ℕ) (token secret algorithm : Text). live_claims now (read_claims token);
}

abbrev pub tokens : TokenSettings
tokens = record {
  jwt_secret = text "s";
  jwt_algorithm = text "HS256";
  access_token_ttl_minutes = 1440;
}

read_claims-write_claims : (c : Claims) → read_claims (write_claims c) ≡ some c
unfolding read_claims write_claims with_sub with_role
read_claims-write_claims c =
    ap (with_sub c.iat c.exp) (read_option-write_option c.sub (write_option c.role []))
    ∙ ap (with_role c.iat c.exp c.sub) (read_option-write_option c.role [])

live_claims_live : (now : ℕ) (c : Claims) → now ≤ c.exp → live_claims now (some c) ≡ some c
unfolding live_claims
live_claims_live now c h = ground arith

pub packages-IsJose : IsJose packages tokens
unfolding packages
packages-IsJose = record {
  decode-encode = λ (c : Claims) (now : ℕ) h.
      ap (live_claims now) (read_claims-write_claims c) ∙ live_claims_live now c h;
  encode_nonempty = λ (c : Claims). unfold write_claims in refl;
}

abbrev pub boss : AdminUser
boss = record {
  email = text "boss";
  password_hash = text "pw";
  role = text "owner";
  is_active = true;
}

abbrev pub settings : Settings
settings = record {
  default_locale = text "en";
  default_currency = text "USD";
  region_cookie_name = text "region";
  cart_token_cookie = text "cart";
  enable_mock_payments = true;
  tokens = tokens;
}

abbrev absent : Text → Option Text
absent name = none

abbrev no_uuid : Text → Option ℕ
no_uuid s = none

-- A request without headers, cookies and query.
abbrev pub call : Call
call = record {
  settings = settings;
  packages = packages;
  parse_uuid = no_uuid;
  uuid_text = λ (id : ℕ). text "u";
  now = 0;
  headers = absent;
  cookies = absent;
  query = absent;
  draws = draws;
  cart_id = 2;
  cart_token = text "new";
  line_id = 4;
  new_ids = record {
    product_id = 5;
    variant_id = λ (i : ℕ). 20 + i;
    hex_prefix = text "00000005";
    digits = λ (n : ℕ). text "1";
  };
  category_id = 6;
  rates = unreachable;
  lazy_load = λ at. err missing_greenlet;
}

abbrev pub database : Database
database = record {
  shop = shop;
  currencies = currencies;
  products = mug ∷ [];
  memberships = [];
  categories = [];
  media = [];
  regions = america ∷ [];
  locales = english ∷ [];
  admins = boss ∷ [];
}
