-- ===== src/Payment.antt =====
-- backend/app/domain/payment: the mock gateway, the only provider that is registered. Its intents
-- live in the process, outside of any transaction. The random part of a reference is an argument.
use neo_store.Errors.{coded_error, domain_error, unknown_payment_provider}
use neo_store.Result.{Result, ok, err}
use neo_store.Decimal.{Decimal}
use neo_store.Exec.{Exec}
use neo_store.Prelude.Text.{Text, text_eq, text}
use neo_store.Prelude.{
  Bool, ◌∷◌, List, if◌then◌else◌, Option, find, none, false, [], some, ◌++◌, true,
}

pub data IntentStatus : Type 0 where
  requires_confirmation requires_action succeeded failed : IntentStatus

pub record PaymentIntent : Type 0 where
  pub provider : Text
  pub provider_ref : Text
  pub amount : Decimal
  pub currency : Text
  pub status : IntentStatus

-- The dictionary that `_intents` keeps for one reference.
pub record StoredIntent : Type 0 where
  pub provider_ref : Text
  pub order_number : Text
  pub amount : Decimal
  pub currency : Text
  pub captured : Bool

-- `PaymentResult`, without `raw`
pub record PaymentResult : Type 0 where
  pub success : Bool
  pub provider_ref : Text

abbrev pub Intents : Type 0
Intents = List StoredIntent

-- `self._intents.get(provider_ref)`
unfoldable pub find_intent : Text → Intents → Option StoredIntent
find_intent provider_ref intents = find (λ i. text_eq i.provider_ref provider_ref) intents

-- `self._intents[intent.provider_ref] = intent`
unfoldable pub put_intent : StoredIntent → Intents → Intents
put_intent intent [] = intent ∷ []
put_intent intent (i ∷ is) =
    if text_eq i.provider_ref intent.provider_ref then intent ∷ is else i ∷ put_intent intent is

-- `MockPaymentProvider.create_intent`, for an order's number, total and currency; `hex` is
-- `uuid.uuid4().hex`
unfoldable pub create_intent : Text → Text → Decimal → Text → Exec Intents PaymentIntent
create_intent hex number total currency_code intents = (
  ok (record {
    provider = text "mock";
    provider_ref = text "mock_" ++ hex;
    amount = total;
    currency = currency_code;
    status = requires_confirmation;
  }),
  put_intent
      (record {
        provider_ref = text "mock_" ++ hex;
        order_number = number;
        amount = total;
        currency = currency_code;
        captured = false;
      })
      intents,
)

-- `MockPaymentProvider.confirm`
unfoldable pub confirm : Text → Exec Intents PaymentResult
confirm provider_ref intents = elim (find_intent provider_ref intents) [
  | none ↦ (ok (record { success = false; provider_ref = provider_ref }), intents)
  | some intent ↦ (
    ok (record { success = true; provider_ref = provider_ref }),
    put_intent (record intent { captured = true }) intents,
  )
]

-- `MockPaymentProvider.refund`, which keeps no record of the refund
unfoldable pub refund_payment : Text → Decimal → Exec Intents PaymentResult
refund_payment provider_ref amount intents = elim (find_intent provider_ref intents) [
  | none ↦ (ok (record { success = false; provider_ref = provider_ref }), intents)
  | some intent ↦ (ok (record { success = intent.captured; provider_ref = provider_ref }), intents)
]

-- `get_payment_provider`: the provider is the mock one, or there is none.
unfoldable pub get_payment_provider : Text → Result (Unit {0})
get_payment_provider provider_code =
    if text_eq provider_code (text "mock")
    then ok tt
    else err (coded_error domain_error unknown_payment_provider)
