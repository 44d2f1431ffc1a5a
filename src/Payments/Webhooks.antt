-- ===== src/Payments/Webhooks.antt =====
-- `handleWebhook` of src/modules/payments/payments.service.js, from the parsed payload on. Whether
-- the signature is right is a field of the request. A text made of an id is that id here.
pub mod Once
use backend_pluseops.Base.{
  ℕ, Bool, true, false, not, ◌&&◌, Option, none, some, List, ◌∷◌, Error, Result, ok, err, Tx, ◌>>=◌,
  ◌>>◌, raise_if, or_raise, raise, pure, modify, nat_eq, ◌==◌, is_some, get_or, if◌then◌else◌,
  invalid_webhook, invalid_webhook_signature, payment_not_found, unique_violation,
}
use backend_pluseops.Base.Lists.{any, find}
use backend_pluseops.Base.Tables.{lookup}
use backend_pluseops.Db.{
  Db, Payment, PaymentStatus, Transaction, TransactionType, WebhookEvent, put_payment,
  add_transaction, add_webhook_event,
}
use backend_pluseops.Payments.{payment_of, by_provider_id, with_id}
use backend_pluseops.Payments.Status.{is_valid_transition}

-- The `type` of the payload.
pub data EventType : Type 0 where
  payment_succeeded charge_succeeded payment_failed charge_failed payment_refunded : EventType
  other_event : EventType

pub record WebhookRequest : Type 0 where
  pub event_id : Option ℕ
  pub kind : EventType
  pub payment_id : Option ℕ
  pub provider_payment_id : Option ℕ
  pub provider_transaction_id : Option ℕ
  pub amount : Option ℕ
  pub tenant_id : Option ℕ
  pub signature_ok : Bool

unfoldable pub target_status : EventType → Option PaymentStatus
target_status payment_succeeded = some PaymentStatus.completed
target_status charge_succeeded = some PaymentStatus.completed
target_status payment_failed = some PaymentStatus.failed
target_status charge_failed = some PaymentStatus.failed
target_status payment_refunded = some PaymentStatus.refunded
target_status other_event = none

-- `type.includes('refund')`
is_refund : EventType → TransactionType
is_refund payment_refunded = TransactionType.refund
is_refund _ = TransactionType.charge

-- By the payment's id or the provider's, within the tenant when the payload names it.
find_target : WebhookRequest → Db → Option (ℕ × Payment)
find_target body s = elim body.payment_id [
  | some id ↦ elim body.tenant_id [
    | some tenant ↦ with_id id (payment_of tenant id s)
    | none ↦ with_id id (lookup id s.payments)
  ]
  | none ↦ elim body.provider_payment_id [
    | some provider_id ↦ elim body.tenant_id [
      | some tenant ↦ by_provider_id tenant provider_id s
      | none ↦ find (λ r. r.1.provider_payment_id == provider_id) s.payments
    ]
    | none ↦ none
  ]
]

-- The checks in front of the transaction; the event, the tenant and the payment.
unfoldable pub resolve : WebhookRequest → Db → Result (ℕ × ℕ × ℕ × Payment)
unfolding find_target
resolve body s = elim body.event_id [
  | none ↦ err invalid_webhook
  | some event_id ↦
      if body.signature_ok
      then elim (find_target body s) [
        | some r ↦ ok (event_id, get_or body.tenant_id r.1.tenant, r.0, r.1)
        | none ↦ elim body.tenant_id [
          | none ↦ err invalid_webhook
          | some tenant ↦ err payment_not_found
        ]
      ]
      else err invalid_webhook_signature
]

-- `findFirst({ where: { tenantId, providerTransactionId } })`: no row has none.
has_transaction : ℕ → Option ℕ → Db → Bool
has_transaction tenant none s = false
has_transaction tenant (some provider_id) s =
    any (λ (t : Transaction). t.tenant == tenant && t.provider_transaction_id == provider_id)
      s.transactions

-- The new status of the payment as it is under the lock, and its entry in the log.
unfoldable pub apply_status : WebhookRequest → ℕ → ℕ → ℕ → PaymentStatus → Payment → Db → Db
unfolding has_transaction is_refund
apply_status body event_id tenant id to fresh s =
    let written = put_payment id (record fresh { status = to }) s in
    if has_transaction tenant body.provider_transaction_id s
    then written
    else add_transaction
        (record {
          tenant = tenant;
          payment_id = id;
          kind = is_refund body.kind;
          amount = get_or body.amount fresh.amount;
          status = to;
          provider_transaction_id = get_or body.provider_transaction_id event_id;
        })
        written

-- The payment as it is under the lock.
advance_fresh : WebhookRequest → ℕ → ℕ → ℕ → PaymentStatus → Option Payment → Db → Db
advance_fresh body event_id tenant id to none s = s
advance_fresh body event_id tenant id to (some fresh) s =
    if is_valid_transition fresh.status to
    then apply_status body event_id tenant id to fresh s
    else s

-- The payment as it was read before.
advance_to : WebhookRequest → ℕ → ℕ → ℕ → Payment → Option PaymentStatus → Db → Db
advance_to body event_id tenant id read none s = s
advance_to body event_id tenant id read (some to) s =
    if is_valid_transition read.status to
    then advance_fresh body event_id tenant id to (payment_of tenant id s) s
    else s

unfoldable pub advance : WebhookRequest → ℕ → ℕ → ℕ → Payment → Db → Db
unfolding advance_to advance_fresh
advance body event_id tenant id read s =
    advance_to body event_id tenant id read (target_status body.kind) s

-- The unique index on `eventId`.
abbrev pub is_recorded : ℕ → Db → Bool
is_recorded event_id s = any (λ (e : WebhookEvent). e.event_id == event_id) s.webhook_events

unfoldable pub webhook_tx : WebhookRequest → ℕ → ℕ → ℕ → Payment → Tx Db Unit
webhook_tx body event_id tenant id read s =
    (do
      raise_if (is_recorded event_id s) unique_violation
      modify (
          add_webhook_event (record { tenant = tenant; payment_id = some id; event_id = event_id }))
      modify (advance body event_id tenant id read))
      s

-- A unique violation is a duplicate, and nothing was written.
answer : Db → Result (Unit {0} × Db) → Result (Bool × Db)
answer s (ok r) = ok (false, r.1)
answer s (err unique_violation) = ok (true, s)
answer s (err e) = err e

handle_resolved : WebhookRequest → Result (ℕ × ℕ × ℕ × Payment) → Tx Db Bool
unfolding answer
handle_resolved body (err e) s = err e
handle_resolved body (ok (event_id, tenant, id, read)) s =
    answer s (webhook_tx body event_id tenant id read s)

-- `PaymentService.handleWebhook`; the answer is `duplicate`.
unfoldable pub handle_webhook : WebhookRequest → Tx Db Bool
unfolding handle_resolved
handle_webhook body s = handle_resolved body (resolve body s) s
