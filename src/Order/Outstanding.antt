-- ===== src/Order/Outstanding.antt =====
-- The units that the orders awaiting payment hold, under a write of the table of orders.
use neo_store.Order.Shop.{order_key}
use neo_store.Prelude.Table
use neo_store.Order.Units.{units, units_nonneg, IsPositive}
use neo_store.Prelude.Int.{ℤ, pos, ◌+ℤ◌, ◌≤ℤ◌, int_laws, +ℤ_assoc}
use neo_store.Order.Models.{Order}
use neo_store.Order.Status.{
  OrderStatus, draft, awaiting_payment, paid, fulfilled, completed, cancelled, refunded,
}
use neo_store.Prelude.{
  ℕ, List, ◌∷◌, Bool, ◌≢◌, Option, some, true, if◌then◌else◌, [], none, false, All, ◌≡◌, arith,
  Bool-cases, ◌==◌, inl, inr,
}

-- The units of a variant that an order holds.
abbrev pub is_awaiting : OrderStatus → Bool
is_awaiting awaiting_payment = true
is_awaiting draft = false
is_awaiting paid = false
is_awaiting fulfilled = false
is_awaiting completed = false
is_awaiting cancelled = false
is_awaiting refunded = false

unfoldable pub owed : ℕ → Order → ℤ
owed v o = if is_awaiting o.status then units v o.lines else pos 0

-- The units of a variant that the orders of the shop hold together.
abbrev pub outstanding : ℕ → List Order → ℤ
outstanding v [] = pos 0
outstanding v (o ∷ os) = owed v o +ℤ outstanding v os

-- What the row of a key holds.
abbrev pub owed_of : ℕ → Option Order → ℤ
owed_of v none = pos 0
owed_of v (some o) = owed v o

shift : (p a b c d : ℤ) → a +ℤ b ≡ c +ℤ d → p +ℤ a +ℤ b ≡ p +ℤ c +ℤ d
shift p a b c d h = cc (h, +ℤ_assoc p a b, +ℤ_assoc p c d)

pub outstanding-put :
    (v : ℕ) (o : Order) (os : List Order)
    → outstanding v (Table.put order_key o os) +ℤ owed_of v (Table.get order_key o.id os)
      ≡ outstanding v os +ℤ owed v o
unfolding Table.put Table.get
outstanding-put v o [] = omega int_laws
outstanding-put v o (p ∷ os) = elim (Bool-cases (p.id == o.id)) [
  | inl e ↦ rw e (omega int_laws)
  | inr e ↦ rw e (
      shift (owed v p) (outstanding v (Table.put order_key o os))
        (owed_of v (Table.get order_key o.id os)) (outstanding v os) (owed v o)
        (outstanding-put v o os))
]

-- Each order has its own id, is no draft, and has lines of positive quantities if it awaits payment.
abbrev pub Sound : Order → Type 0
Sound o = (o.status ≢ draft) × All IsPositive o.lines

owed_nonneg : (v : ℕ) (o : Order) → Sound o → pos 0 ≤ℤ owed v o
unfolding owed
owed_nonneg v o s = grind (int_laws, units_nonneg v o.lines s.1)

outstanding_nonneg : (v : ℕ) (os : List Order) → All Sound os → pos 0 ≤ℤ outstanding v os
outstanding_nonneg v [] a = omega arith
outstanding_nonneg v (o ∷ os) a =
    let n = owed_nonneg v o a.0 in let ih = outstanding_nonneg v os a.1 in omega int_laws

-- An order of the table holds no more than all of them together.
pub owed-le-outstanding :
    (v id : ℕ) (os : List Order) {o : Order}
    → All Sound os
    → Table.get order_key id os ≡ some o
    → owed v o ≤ℤ outstanding v os
unfolding Table.get
owed-le-outstanding v id [] a h = cc
owed-le-outstanding v id (p ∷ os) {o} a h =
    let n = owed_nonneg v p a.0 in
    let m = outstanding_nonneg v os a.1 in
    elim (Bool-cases (p.id == id)) [
      | inl e ↦ let e' : p ≡ o = ground arith in rw (← e') (omega int_laws)
      | inr e ↦ let ih = owed-le-outstanding v id os {o = o} a.1 (ground arith) in omega int_laws
    ]
