-- ===== src/Razorpay.antt =====
-- Online payment through the shop's own Razorpay account:
-- src/modules/payments/razorpay-payments.service.js.
-- The account's keys, the call that makes a Razorpay order and the checks of signatures are
-- parameters. A transaction that locks a row runs on one state.
pub mod Marking
use Prim.Native.String.{String, compare}
use text.Mathlib.Text.{is_eq}
use backend_pluseops.Base.{
  ℕ, ◌+◌, ◌*◌, ◌/◌, Bool, true, false, not, ◌&&◌, ◌||◌, Option, none, some, List, [], ◌∷◌, Error,
  Result, ok, err, Tx, ◌>>=◌, ◌>>◌, raise_if, or_raise, raise, pure, modify, nat_eq, ◌==◌, is_some,
  get_or, if◌then◌else◌, payment_gateway_not_configured, order_not_found, order_not_eligible,
  order_already_paid, invalid_amount, integration_error, payment_not_found,
  invalid_payment_signature, database_fault, unique_violation, invalid_webhook_signature,
  invalid_webhook,
}
use backend_pluseops.Base.Lists.{any, find}
use backend_pluseops.Base.Tables.{lookup}
use backend_pluseops.Db.{
  Db, Order, Payment, PaymentStatus, Provider, WebhookEvent, fresh_id, put_payment, add_transaction,
  add_webhook_event,
}
use backend_pluseops.Gst.{round_div}
use backend_pluseops.Orders.Changing.{order_of}
use backend_pluseops.Payments.{payment_of, charge_entry}
use backend_pluseops.Payments.Status.{is_active, is_eligible, index}
use backend_pluseops.Payments.Webhooks.{is_recorded}

-- The currencies without minor units, and those with three digits.
no_digits : List String
no_digits = "JPY" ∷ "KRW" ∷ "VND" ∷ "CLP" ∷ "PYG" ∷ "UGX" ∷ "ISK" ∷ []

three_digits : List String
three_digits = "BHD" ∷ "KWD" ∷ "OMR" ∷ "JOD" ∷ "TND" ∷ []

-- `toMinorUnits` of src/integrations/payment/razorpay.client.js, of an amount in hundredths and a
-- currency in capitals
unfoldable pub minor_units : ℕ → String → ℕ
unfolding no_digits three_digits round_div
minor_units amount currency =
    if any (λ c. is_eq (compare currency c)) no_digits
    then round_div amount 100
    else if any (λ c. is_eq (compare currency c)) three_digits
    then amount * 10
    else amount

-- The parameters: the id of the key in use, `credentialsFor(tenant)` and the same with disabled
-- accounts, `createOrder` for an amount in minor units, a currency and an order, and whether the
-- signature of a checkout is right.
pub record Account : Type 0 where
  pub key : ℕ → Option ℕ
  pub any_key : ℕ → Option ℕ
  pub create_order : ℕ → String → ℕ → Option ℕ
  pub checkout_ok : ℕ → ℕ → ℕ → Bool

is_own : Provider → Bool
is_own Provider.razorpay = true
is_own _ = false

is_some_of : Option ℕ → ℕ → Bool
is_some_of none n = false
is_some_of (some m) n = m == n

-- The payment of the order that is COMPLETED, and the one that is PENDING or PROCESSING.
abbrev paid_for : ℕ → ℕ → Db → Option (ℕ × Payment)
paid_for tenant order_id s =
    find
      (λ r.
        r.1.tenant == tenant
        && (r.1.order_id == order_id && index r.1.status == index PaymentStatus.completed))
      s.payments

abbrev open_for : ℕ → ℕ → Db → Option (ℕ × Payment)
open_for tenant order_id s =
    find (λ r. r.1.tenant == tenant && (r.1.order_id == order_id && is_active r.1.status))
      s.payments

-- An attempt for the same amount with the same key is used again.
is_current : ℕ → ℕ → Payment → Bool
is_current amount_minor key p =
    is_own p.provider && (is_some_of p.amount_minor amount_minor && is_some_of p.key_id key)

-- A new Razorpay order and its pending payment.
new_attempt : Account → ℕ → ℕ → Order → ℕ → ℕ → Tx Db ℕ
new_attempt account tenant order_id order amount_minor key s =
    (do
      made ← or_raise (account.create_order amount_minor order.currency order_id) integration_error
      id ← fresh_id
      let payment : Payment = record {
        tenant = tenant;
        order_id = order_id;
        amount = order.total;
        currency = order.currency;
        status = PaymentStatus.pending;
        provider = Provider.razorpay;
        provider_payment_id = made;
        amount_minor = some amount_minor;
        key_id = some key;
        razorpay_payment_id = none;
      }
      modify (put_payment id payment)
      modify (add_transaction (charge_entry id order.total PaymentStatus.pending made payment))
      pure id)
      s

-- What becomes of an active payment: it is used again, or it gives way to a new attempt.
attempt : Account → ℕ → ℕ → Order → ℕ → ℕ → Option (ℕ × Payment) → Tx Db ℕ
attempt account tenant order_id order amount_minor key none =
    new_attempt account tenant order_id order amount_minor key
attempt account tenant order_id order amount_minor key (some r) =
    if is_current amount_minor key r.1 then pure r.0 else (do
      modify (put_payment r.0 (record r.1 { status = PaymentStatus.cancelled }))
      new_attempt account tenant order_id order amount_minor key)

unfoldable pub start_tx : Account → ℕ → ℕ → ℕ → Tx Db ℕ
unfolding attempt new_attempt is_current is_own is_some_of
start_tx account tenant order_id key s =
    (do
      order ← or_raise (order_of tenant order_id s) order_not_found
      raise_if (not (is_eligible order.status)) order_not_eligible
      raise_if (is_some (paid_for tenant order_id s)) order_already_paid
      raise_if (minor_units order.total order.currency == 0) invalid_amount
      attempt account tenant order_id order (minor_units order.total order.currency) key
          (open_for tenant order_id s))
      s

-- `start`; the checkout is made of the payment's row.
unfoldable pub start : Account → ℕ → ℕ → Tx Db ℕ
start account tenant order_id = do
  key ← or_raise (account.key tenant) payment_gateway_not_configured
  start_tx account tenant order_id key

-- What `markPaid` writes, for the payment as it is under the lock.
unfoldable pub mark : ℕ → ℕ → Payment → Db → Db
unfolding is_some_of
mark id captured p s =
    let entry = charge_entry id p.amount PaymentStatus.completed captured p in
    if is_active p.status
    then add_transaction entry (
        put_payment id
          (record p { status = PaymentStatus.completed; razorpay_payment_id = some captured }) s)
    else if is_some_of p.razorpay_payment_id captured
    then s
    else add_transaction entry s

-- `markPaid`; `in_tx` runs first in the transaction.
unfoldable pub mark_paid : ℕ → ℕ → ℕ → Tx Db Unit → Tx Db Unit
mark_paid tenant id captured in_tx = do
  in_tx
  (λ s. (do p ← or_raise (payment_of tenant id s) database_fault; modify (mark id captured p)) s)

pub record Checkout : Type 0 where
  pub order : ℕ
  pub payment : ℕ
  pub signature : ℕ

own_payment : ℕ → ℕ → Db → Option Payment
unfolding is_own
own_payment tenant id s = elim (payment_of tenant id s) [
  | none ↦ none
  | some p ↦ if is_own p.provider then some p else none
]

-- `verify`
unfoldable pub verify : Account → ℕ → ℕ → Checkout → Tx Db Unit
unfolding own_payment
verify account tenant id checkout s =
    (do
      p ← or_raise (own_payment tenant id s) payment_not_found
      key ← or_raise (account.any_key tenant) payment_gateway_not_configured
      raise_if
          (not (p.provider_payment_id == checkout.order)
            || not (account.checkout_ok checkout.order checkout.payment checkout.signature))
          invalid_payment_signature
      mark_paid tenant id checkout.payment (pure tt))
      s

-- A webhook: whether its signature is right and its body is JSON, the event's id, whether it is one
-- of PAID_EVENTS, and the payment entity's order, id and amount.
pub record Delivery : Type 0 where
  pub signature_ok : Bool
  pub is_json : Bool
  pub event_id : ℕ
  pub is_paid : Bool
  pub order : Option ℕ
  pub payment : ℕ
  pub amount : ℕ

-- `record`, with the unique index on the event's id
unfoldable pub record_event : ℕ → Option ℕ → ℕ → Tx Db Unit
record_event tenant payment_id event_id s =
    (do
      raise_if (is_recorded event_id s) unique_violation
      modify (
          add_webhook_event
            (record { tenant = tenant; payment_id = payment_id; event_id = event_id })))
      s

pub record Outcome : Type 0 where
  pub handled : Bool
  pub duplicate : Bool

-- A unique violation is a duplicate, and nothing was written.
outcome : Bool → Db → Result (Unit {0} × Db) → Result (Outcome × Db)
outcome handled s (ok r) = ok (record { handled = handled; duplicate = false }, r.1)
outcome handled s (err unique_violation) = ok (record { handled = handled; duplicate = true }, s)
outcome handled s (err e) = err e

-- The payment that the event's Razorpay order belongs to.
target : ℕ → Option ℕ → Db → Option (ℕ × Payment)
unfolding is_own
target tenant none s = none
target tenant (some order) s =
    find (λ r. r.1.tenant == tenant && (is_own r.1.provider && r.1.provider_payment_id == order))
      s.payments

handle_target : Account → ℕ → Delivery → Option (ℕ × Payment) → Tx Db Outcome
unfolding outcome
handle_target account tenant d none s = outcome false s (record_event tenant none d.event_id s)
handle_target account tenant d (some r) s =
    if d.is_paid && d.amount == get_or r.1.amount_minor (minor_units r.1.amount r.1.currency)
    then outcome true s
        (mark_paid tenant r.0 d.payment (record_event tenant (some r.0) d.event_id) s)
    else outcome false s (record_event tenant (some r.0) d.event_id s)

-- `handleWebhook`
unfoldable pub handle_delivery : Account → ℕ → Delivery → Tx Db Outcome
unfolding handle_target target
handle_delivery account tenant d s =
    (do
      raise_if (not d.signature_ok) invalid_webhook_signature
      raise_if (not d.is_json) invalid_webhook
      handle_target account tenant d (target tenant d.order s))
      s
