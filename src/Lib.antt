-- ===== src/Lib.antt =====
-- NeoStore's backend, a shop with several regions, currencies and languages: the domain layer and the
-- HTTP API under backend/app, which are written in Python over SQLAlchemy and FastAPI.
--
-- The parts and their files. A request enters by a route of backend/app/api, which calls a domain
-- service inside one database transaction.
--   Errors: backend/app/core/domain_errors.py and errors.py, exceptions and the answers they become.
--   Decimal: Python's decimal module as far as the code calls it, with its default context.
--   Currency: backend/app/domain/currency and backend/app/integrations/exchange_rate.py.
--   Worker: backend/app/worker.py, the job that refreshes the rates and the hours at which it runs.
--   Seed: backend/app/seed.py, the reference data of a new shop.
--   Region: backend/app/domain/region. Locale: backend/app/domain/i18n.
--   Catalog: backend/app/domain/catalog; Catalog.Reads is repository.py, Catalog.Storefront
--   service.py; Catalog.Admin, NewProduct, Categories and AdminViews are admin_service.py with the
--   schemas, over the tables of Catalog.Store. Pricing: backend/app/domain/pricing.
--   Inventory: backend/app/domain/inventory. Cart: backend/app/domain/cart.
--   Payment: backend/app/domain/payment, the mock gateway.
--   Order: backend/app/domain/order. Order.Service has checkout, pay and transition; Order.Status is
--   state_machine.py; Order.Shop is the state they share: stock, carts, orders and intents.
--   Security: backend/app/core/security.py and api/v1/admin/auth.py, over bcrypt and python-jose.
--   Http: backend/app/core/deps.py and backend/app/api/v1. Http.Storefront is store/*.py,
--   Http.Dashboard admin/auth.py, orders.py, inventory.py and settings.py, Http.Products
--   admin/products.py and categories.py, Http.Schemas the payloads; Http.Routes is router.py, with
--   the whole API as the function serve from a call, a route and a database to an answer and the
--   database after it.
-- Prelude, Result and Exec hold what the parts share. A service method is a function of type
-- Exec S A, from a state to a result and the next state; what it wrote before a raise stays in that
-- state, and Exec.transaction commits it or rolls it back. Functions keep their Python names; the
-- methods of two repositories that have one name are told apart (find_cart, get_item, get_region).
-- Cart.Calls lets the calls of the cart service follow each other in any order, Order.Trade the
-- services' transactions, and Http.Routes.Traffic the requests to the API. A handler's name is told apart from its service's
-- where both have one (post_line, browse_products, inspect_order).
--
-- The model. A table is the list of its rows. A UUID is a natural number and a text the list of its
-- ASCII code points, so upper, lower and strip are those of ASCII. Python's integers are ℤ. A decimal
-- is an integer over a power of ten with 28 significant digits; the sign of zero and trailing zeros
-- are not told apart. A time is a natural number. Random draws, the parsing of a UUID and the answer
-- of the rate provider are arguments. A row lock makes the calls on a row a sequence. The shipping
-- address is the text of its JSON. A pattern of ILIKE has no escapes.
-- The fuel of Decimal.excess is the number itself, which has fewer digits than its value; the five
-- rounds of Order.Draft.next_number_loop are the source's NUMBER_ATTEMPTS; Worker.hours_from has 24
-- rounds for the 24 hours of a day, and its step is at least one. No other function needs fuel.
--
-- A deletion cascades to other tables as the foreign keys of the models say, on PostgreSQL. What a
-- rollback leaves are the tables as they were and the intents of the gateway, which live in the
-- process. bcrypt, python-jose, uuid, the lazy loading of SQLAlchemy and the headers, cookies and
-- query of a request are parameters.
--
-- Not modelled: the SQL engine with its column types, rounding of NUMERIC columns, unique
-- constraints and the refusal of a foreign key; messages and details of errors; the parsing of
-- paths and bodies, status codes of success and cookie attributes; the rows of product options,
-- which no handler writes; the seeding of categories and products; the cron of the worker, set-up
-- of application, session and cache, migrations and the front ends. They are set-up of third-party
-- packages, or data. The tests stand in Tests.
pub mod Prelude
pub mod Errors
pub mod Result
pub mod Exec
pub mod Decimal
pub mod Currency
pub mod Catalog
pub mod Region
pub mod Locale
pub mod Pricing
pub mod Inventory
pub mod Cart
pub mod Payment
pub mod Order
pub mod Security
pub mod Http
pub mod Tests
pub mod Worker
pub mod Seed
