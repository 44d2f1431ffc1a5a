-- ===== src/Payments/Status.antt =====
-- PAYMENT_TRANSITIONS, isValidTransition and the lists of statuses that
-- src/modules/payments/payments.service.js and payments.repository.js test for.
use backend_pluseops.Base.{ℕ, Bool, true, false, List, [], ◌∷◌, ◌==◌, if◌then◌else◌}
use backend_pluseops.Base.Lists.{any}
use backend_pluseops.Db.{
  OrderStatus, PaymentStatus, pending, processing, completed, failed, refunded, partially_refunded,
  cancelled,
}
use backend_pluseops.Orders.Status.{includes}

unfoldable pub transitions : PaymentStatus → List PaymentStatus
transitions pending = processing ∷ completed ∷ failed ∷ cancelled ∷ []
transitions processing = completed ∷ failed ∷ cancelled ∷ []
transitions completed = refunded ∷ partially_refunded ∷ []
transitions partially_refunded = refunded ∷ partially_refunded ∷ []
transitions failed = []
transitions cancelled = []
transitions refunded = []

-- The declaration order of the enum, by which two statuses are compared.
abbrev pub index : PaymentStatus → ℕ
index pending = 0
index processing = 1
index completed = 2
index failed = 3
index refunded = 4
index partially_refunded = 5
index cancelled = 6

abbrev pub same : PaymentStatus → PaymentStatus → Bool
same a b = index a == index b

unfoldable pub is_valid_transition : PaymentStatus → PaymentStatus → Bool
unfolding transitions
is_valid_transition from to =
    if same from to then false else any (λ s. same s to) (transitions from)

-- PENDING or PROCESSING
abbrev pub is_active : PaymentStatus → Bool
is_active pending = true
is_active processing = true
is_active _ = false

-- COMPLETED or PARTIALLY_REFUNDED
abbrev pub is_refundable : PaymentStatus → Bool
is_refundable completed = true
is_refundable partially_refunded = true
is_refundable _ = false

-- ORDER_ELIGIBLE_STATUSES
abbrev pub is_eligible : OrderStatus → Bool
is_eligible =
    includes (
      OrderStatus.pending ∷ OrderStatus.confirmed ∷ OrderStatus.processing ∷ OrderStatus.draft ∷ [])
