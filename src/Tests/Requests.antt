-- ===== src/Tests/Requests.antt =====
-- Witnesses for the API: logins, guarded routes, refused requests and traffic.
use neo_store.Currency.{get_rate, upsert_rate}
use neo_store.Http.Dashboard.{override_exchange_rate, write_rate, validate_rate}
use neo_store.Http.Schemas.{ExchangeRateOverride}
use neo_store.Tests.Data.{shop-IsBalanced, currencies}
use neo_store.Http.Routes.Guarded.{serve_guarded}
use neo_store.Errors.{
  request_invalid, plain_error, unauthorized, Exception, coded_error, invalid_credentials,
  missing_greenlet,
}
use neo_store.Http.Sessions.{SameTables}
use neo_store.Result.{ok, err}
use neo_store.Http.Routes.Atomic.{may_fail_late, is_get, is_get_store, serve_same}
use neo_store.Exec.{transaction}
use neo_store.Prelude.Int.{pos}
use neo_store.Http.{committed, Call, Database, admin_write, require_admin}
use neo_store.Http.Storefront.{post_line}
use neo_store.Order.Accounts.{IsBalanced}
use neo_store.Tests.Server.{packages, tokens, boss, call, database, packages-IsJose}
use neo_store.Prelude.Text.{Text, text, lower, lower_char, upper, upper_char}
use neo_store.Http.Routes.{
  Route, serve, serve_store, store, post_cart_line, post_order, admin, delete_admin_product,
  serve_admin, put_rate,
}
use neo_store.Http.Routes.Traffic.{IsRegular, Traffic-IsBalanced, then_served, quiet}
use neo_store.Security.{
  AdminUser, login, create_access_token, find_admin, get_admin_user, verify_password, bearer_token,
  decode_token,
}
use neo_store.Security.Tokens.{HasAccount, Carries, HasAccount, login_admits, login_iff}
use neo_store.Prelude.{◌∷◌, [], ◌≡◌, refl, ◌↔◌, ◌⊎◌, inr, some, ◌++◌, arith}
use neo_store.Prelude.Table

boss_token : Text
unfolding packages
boss_token = create_access_token packages tokens 0 (text "boss") (text "owner")

boss_logs_in : login packages tokens 0 (boss ∷ []) (text "boss") (text "pw") ≡ ok boss_token
unfolding login packages boss_token find_admin verify_password create_access_token
boss_logs_in = refl

login_admits_example :
    (user : AdminUser) × HasAccount packages tokens (boss ∷ []) (text "boss") (text "pw") user
    × (get_admin_user packages tokens 60 (boss ∷ []) (some (text "Bearer " ++ boss_token))
        ≡ ok user)
login_admits_example =
    login_admits packages tokens 0 60 (boss ∷ []) (text "boss") (text "pw") packages-IsJose refl
      (omega arith) boss_logs_in

login_iff_example :
    (((token : Text) × (login packages tokens 0 (boss ∷ []) (text "boss") (text "pw") ≡ ok token))
      ↔ ((user : AdminUser) × HasAccount packages tokens
            (boss ∷ [])
            (text "boss")
            (text "pw")
            user))
    × ((e : Exception)
        → login packages tokens 0 (boss ∷ []) (text "boss") (text "pw") ≡ err e
        → e ≡ coded_error unauthorized invalid_credentials)
login_iff_example = login_iff packages tokens 0 (boss ∷ []) (text "boss") (text "pw")

-- A request with the token that the login of the account has made.
abbrev signed_in : Call
signed_in = record call {
  headers = λ name.
      some (text "Bearer " ++ create_access_token packages tokens 0 (text "boss") (text "owner"));
}

serve_guarded_example :
    ((user : AdminUser) × (get_admin_user packages tokens 0
          (boss ∷ [])
          (signed_in.headers (text "authorization"))
        ≡ ok user)
      × Carries packages tokens 0 (boss ∷ []) (signed_in.headers (text "authorization")) user)
    ⊎ (serve signed_in (admin (delete_admin_product 1)) database
        ≡ (err (plain_error unauthorized), database))
serve_guarded_example = serve_guarded signed_in (delete_admin_product 1) database

-- The rate of a pair that is stored: the answer is an error, and the rate is changed.
abbrev new_rate : ExchangeRateOverride
new_rate = record {
  base_code = text "USD";
  quote_code = text "EUR";
  rate = record { coeff = pos 9; places = 1 };
  source = text "manual";
}

abbrev rated : Database
rated = record database {
  currencies = record currencies {
    rates =
        record {
          base_code = text "USD";
          quote_code = text "EUR";
          rate = record { coeff = pos 92; places = 2 };
          source = text "seed-fallback";
          fetched_at = 0;
        }
        ∷ [];
  };
}

late_error :
    ((serve signed_in (admin (put_rate new_rate)) rated).0 ≡ err missing_greenlet)
    × ((serve signed_in (admin (put_rate new_rate)) rated).1.currencies
        ≡ upsert_rate (text "USD") (text "EUR") new_rate.rate (text "manual") 0 rated.currencies)
unfolding serve serve_admin override_exchange_rate admin_write committed transaction require_admin
    write_rate validate_rate get_admin_user bearer_token decode_token create_access_token packages
    lower lower_char find_admin get_rate upper upper_char
late_error = (refl, refl)

abbrev no_units : Route
no_units = store (post_cart_line (text "tok") 7 (pos 0))

serve_same_example : SameTables database (serve call no_units database).1
unfolding serve serve_store post_line committed transaction may_fail_late is_get is_get_store
serve_same_example = serve_same call no_units database (inr (request_invalid, refl, refl))

abbrev order_form : Route
order_form = store (
    post_order (record {
      cart_token = text "tok";
      email = text "a@b";
      shipping_address = text "{}";
      payment_provider = text "mock";
    }))

Traffic-IsBalanced_example : IsBalanced (serve call order_form database).1.shop
unfolding IsRegular Table.get
Traffic-IsBalanced_example =
    Traffic-IsBalanced (then_served call order_form quiet refl refl) shop-IsBalanced
