-- ===== src/Orders/Status/Progress.antt =====
-- Orders only move forward.
use backend_pluseops.Base.{ℕ, zero, suc, ◌+◌, ◌<◌, ◌≤◌, ◌≡◌, true, false, some, arith, ap}
use backend_pluseops.Db.{
  OrderStatus, draft, pending, confirmed, processing, shipped, delivered, cancelled, refunded,
  partially_refunded,
}
use backend_pluseops.Orders.Status.{includes, is_valid_transition, cancellable_statuses}

-- How far an order has come.
abbrev pub progress : OrderStatus → ℕ
progress draft = 0
progress pending = 1
progress confirmed = 2
progress processing = 3
progress shipped = 4
progress delivered = 5
progress partially_refunded = 6
progress refunded = 7
progress cancelled = 7

-- A change of status that the table allows moves the order forward, in the order of `progress`.
pub is_valid_transition-progress :
    (from to : OrderStatus)
    → is_valid_transition (some from) to ≡ true
    → progress from < progress to
unfolding is_valid_transition
is_valid_transition-progress from to h = ground arith

progress-le : (s : OrderStatus) → progress s ≤ 7
progress-le s = ground arith

-- The statuses that an order goes through from `s`, each reached by a valid transition.
pub data Route : OrderStatus → OrderStatus → ℕ → Type 0 where
  stay : {s : OrderStatus} → Route s s zero
  step :
      {s t u : OrderStatus} {n : ℕ}
      → is_valid_transition (some s) t ≡ true
      → Route t u n
      → Route s u (suc n)

Route-progress : {s t : OrderStatus} {n : ℕ} → Route s t n → progress s + n ≤ progress t
Route-progress stay = omega arith
Route-progress (step {s} {t} h r) =
    omega (arith, is_valid_transition-progress s t h, Route-progress r)

-- An order changes its status by valid transitions at most seven times, and never comes back to a
-- status that it has left.
pub Route-bounded : {s t : OrderStatus} {n : ℕ} → Route s t n → (n ≤ 7) × (s ≡ t → n ≡ 0)
Route-bounded {s} {t} {n} r = (
  omega (arith, Route-progress r, progress-le t),
  λ e. omega (arith, Route-progress r, ap progress e),
)

-- A cancelled or refunded order is final: no status can follow it.
pub is_valid_transition-final :
    (to : OrderStatus)
    → (is_valid_transition (some cancelled) to ≡ false)
      × (is_valid_transition (some refunded) to ≡ false)
unfolding is_valid_transition
is_valid_transition-final to = (ground arith, ground arith)

-- The statuses from which an order may be cancelled are those that the table lets become
-- CANCELLED.
pub cancellable_iff :
    (s : OrderStatus) → includes cancellable_statuses s ≡ is_valid_transition (some s) cancelled
unfolding is_valid_transition
cancellable_iff s = ground arith
