-- ===== src/Order/Status.antt =====
-- backend/app/domain/order/state_machine.py
pub mod Paths
use neo_store.Errors.{
  plain_error, domain, not_found, invalid_status_transition, invalid_order_status,
}
use neo_store.Result.{Result, ok, err}
use neo_store.Prelude.Text.{lower, Text, text, text_eq, text_lt}
use neo_store.Prelude.{ℕ, Bool, List, ◌∷◌, find, if◌then◌else◌, map, any, some, [], none}

pub data OrderStatus : Type 0 where
  draft awaiting_payment paid fulfilled completed cancelled refunded : OrderStatus

-- `ALLOWED_TRANSITIONS`
unfoldable pub allowed_transitions : OrderStatus → List OrderStatus
allowed_transitions draft = awaiting_payment ∷ cancelled ∷ []
allowed_transitions awaiting_payment = paid ∷ cancelled ∷ []
allowed_transitions paid = fulfilled ∷ refunded ∷ []
allowed_transitions fulfilled = completed ∷ refunded ∷ []
allowed_transitions completed = refunded ∷ []
allowed_transitions cancelled = []
allowed_transitions refunded = []

-- The value of a member, which is also what `str` makes of it.
unfoldable pub status_text : OrderStatus → Text
status_text draft = text "draft"
status_text awaiting_payment = text "awaiting_payment"
status_text paid = text "paid"
status_text fulfilled = text "fulfilled"
status_text completed = text "completed"
status_text cancelled = text "cancelled"
status_text refunded = text "refunded"

pub OrderStatus-discrete : Discrete OrderStatus
OrderStatus-discrete = hlevel

-- `a is b`
unfoldable pub same_status : OrderStatus → OrderStatus → Bool
unfolding status_text
same_status a b = text_eq (status_text a) (status_text b)

-- `assert_transition`
unfoldable pub assert_transition : OrderStatus → OrderStatus → Result (Unit {0})
unfolding allowed_transitions same_status
assert_transition current target =
    if any (same_status target) (allowed_transitions current)
    then ok tt
    else err (plain_error invalid_status_transition)

insert_text : Text → List Text → List Text
insert_text s [] = s ∷ []
insert_text s (t ∷ ts) = if text_lt t s then t ∷ insert_text s ts else s ∷ t ∷ ts

-- `sorted`
sort_texts : List Text → List Text
unfolding insert_text
sort_texts [] = []
sort_texts (s ∷ ss) = insert_text s (sort_texts ss)

-- `allowed_targets`
unfoldable pub allowed_targets : OrderStatus → List Text
unfolding allowed_transitions status_text sort_texts
allowed_targets current = sort_texts (map status_text (allowed_transitions current))

abbrev all_statuses : List OrderStatus
all_statuses = draft ∷ awaiting_payment ∷ paid ∷ fulfilled ∷ completed ∷ cancelled ∷ refunded ∷ []

-- `_validate_status` of backend/app/api/v1/admin/orders.py
unfoldable pub validate_status : Text → Result OrderStatus
unfolding lower status_text
validate_status raw = elim (find (λ s. text_eq (status_text s) (lower raw)) all_statuses) [
  | some status ↦ ok status
  | none ↦ err (domain not_found invalid_order_status 422)
]
