-- ===== src/Errors.antt =====
-- backend/app/core/domain_errors.py and the handlers of backend/app/core/errors.py: the exceptions
-- that a service raises, and the status and code of the HTTP answer that each becomes. The texts
-- of `message` and `details` are left out.
use neo_store.Prelude.{ℕ}

-- The subclasses of `DomainError`, by name.
pub data ErrorClass : Type 0 where
  domain_error not_found validation_failed insufficient_stock cart_expired payment_failed :
      ErrorClass
  idempotency_conflict exchange_rate_unavailable unauthorized invalid_status_transition : ErrorClass

-- The strings that stand as `code`: the classes' own, and those given by a `raise`.
pub data Code : Type 0 where
  class_code : ErrorClass → Code
  invalid_quantity cart_not_found cart_line_not_found variant_not_found cart_empty : Code
  order_not_found no_region_configured unknown_payment_provider product_not_found : Code
  category_not_found invalid_product_status invalid_order_status mock_payments_disabled : Code
  invalid_credentials internal_error : Code

-- `status_code` of each class.
unfoldable pub class_status : ErrorClass → ℕ
class_status domain_error = 400
class_status not_found = 404
class_status validation_failed = 422
class_status insufficient_stock = 409
class_status cart_expired = 410
class_status payment_failed = 402
class_status idempotency_conflict = 409
class_status exchange_rate_unavailable = 503
class_status unauthorized = 401
class_status invalid_status_transition = 409

-- An exception in flight: a `DomainError` with its code and status, the `RequestValidationError`
-- of a payload that its schema refuses, or one that no handler of the program names: decimal's
-- `InvalidOperation`, `KeyError`, `AttributeError`, the JSON decoder's error, and SQLAlchemy's
-- `MissingGreenlet`.
pub data Exception : Type 0 where
  domain : ErrorClass → Code → ℕ → Exception
  request_invalid : Exception
  invalid_operation : Exception
  key_error attribute_error json_decode_error missing_greenlet : Exception

-- `Cls(message=…)`, `Cls(message=…, code=…)` and `Cls(message=…, code=…, status_code=…)`
unfoldable pub plain_error : ErrorClass → Exception
unfolding class_status
plain_error c = domain c (class_code c) (class_status c)

unfoldable pub coded_error : ErrorClass → Code → Exception
unfolding class_status
coded_error c k = domain c k (class_status c)

pub record Response : Type 0 where
  pub status : ℕ
  pub code : Code

-- `_domain_error`, `_validation_error` and `_unhandled` of `register_exception_handlers`
unfoldable pub handle_exception : Exception → Response
handle_exception (domain c k s) = record { status = s; code = k }
handle_exception request_invalid = record { status = 422; code = class_code validation_failed }
handle_exception attribute_error = record { status = 500; code = internal_error }
handle_exception json_decode_error = record { status = 500; code = internal_error }
handle_exception missing_greenlet = record { status = 500; code = internal_error }
handle_exception key_error = record { status = 500; code = internal_error }
handle_exception invalid_operation = record { status = 500; code = internal_error }
