-- ===== src/Calculator/Turns/Order.antt =====
-- The canonical order of spans is total and transitive.
use actioneer_pulse.Common.{true, false, List, ◌≡◌, arith}
use actioneer_pulse.Common.Sort.{sort_by, IsAscending, sort_by-IsAscending}
use actioneer_pulse.Model.{Span}
use actioneer_pulse.Calculator.Turns.{OrderKey, key_le, order_key, span_le}

key_le-total : (a b : OrderKey) → key_le a b ≡ false → key_le b a ≡ true
key_le-total (OrderKey.timed a) (OrderKey.timed b) h = ground arith
key_le-total (OrderKey.timed a) (OrderKey.untimed b) h = ground arith
key_le-total (OrderKey.untimed a) (OrderKey.timed b) h = ground arith
key_le-total (OrderKey.untimed a) (OrderKey.untimed b) h = ground arith

key_le_trans : (a b c : OrderKey) → key_le a b ≡ true → key_le b c ≡ true → key_le a c ≡ true
key_le_trans (OrderKey.timed a) b c h k = ground arith
key_le_trans (OrderKey.untimed a) b c h k = ground arith

-- Of any two spans one comes before the other or beside it, the order is transitive, and `sorted` by
-- it yields a list in this order.
pub order_key_orders :
    (a b c : Span) (spans : List Span)
    → (span_le a b ≡ false → span_le b a ≡ true)
      × (span_le a b ≡ true → span_le b c ≡ true → span_le a c ≡ true)
      × IsAscending span_le (sort_by span_le spans)
order_key_orders a b c spans = (
  key_le-total (order_key a) (order_key b),
  key_le_trans (order_key a) (order_key b) (order_key c),
  sort_by-IsAscending span_le (λ x y. key_le-total (order_key x) (order_key y)) spans,
)
