-- ===== src/Orders/Status.antt =====
-- ORDER_STATUS_TRANSITIONS, CANCELLABLE_STATUSES and isValidTransition of
-- src/modules/orders/orders.service.js.
pub mod Progress
use backend_pluseops.Base.{
  ℕ, Bool, true, false, ◌&&◌, not, Option, none, some, List, [], ◌∷◌, ◌==◌, if◌then◌else◌,
}
use backend_pluseops.Base.Lists.{any}
use backend_pluseops.Db.{
  OrderStatus, draft, pending, confirmed, processing, shipped, delivered, cancelled, refunded,
  partially_refunded,
}

unfoldable pub transitions : OrderStatus → List OrderStatus
transitions draft = pending ∷ cancelled ∷ []
transitions pending = confirmed ∷ cancelled ∷ []
transitions confirmed = processing ∷ cancelled ∷ []
transitions processing = shipped ∷ cancelled ∷ []
transitions shipped = delivered ∷ []
transitions delivered = refunded ∷ partially_refunded ∷ []
transitions cancelled = []
transitions refunded = []
transitions partially_refunded = refunded ∷ []

-- The declaration order of the enum, by which two statuses are compared.
abbrev pub index : OrderStatus → ℕ
index draft = 0
index pending = 1
index confirmed = 2
index processing = 3
index shipped = 4
index delivered = 5
index cancelled = 6
index refunded = 7
index partially_refunded = 8

abbrev pub includes : List OrderStatus → OrderStatus → Bool
includes statuses s = any (λ x. index x == index s) statuses

unfoldable pub is_valid_transition : Option OrderStatus → OrderStatus → Bool
unfolding transitions
is_valid_transition none to = true
is_valid_transition (some from) to =
    if index from == index to then false else includes (transitions from) to

abbrev pub cancellable_statuses : List OrderStatus
cancellable_statuses = draft ∷ pending ∷ confirmed ∷ processing ∷ []
