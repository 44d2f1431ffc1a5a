-- ===== src/Examples/Paying.antt =====
-- Payments and the cash drawer at concrete inputs.
use backend_pluseops.Base.{
  ◌≡◌, ◌≤◌, refl, true, false, none, some, [], ◌∷◌, ok, err, Ensures, Result, pure, arith,
}
use backend_pluseops.Base.Int.{◌+ℤ◌, ◌-ℤ◌}
use backend_pluseops.Base.Tables.{lookup, upsert}
use backend_pluseops.Db.{
  Db, Payment, PaymentStatus, put_payment, add_transaction, put_session, add_audit,
}
use backend_pluseops.Payments.{ConfirmRequest, confirm, confirm_tx, payment_of, charge_entry}
use backend_pluseops.Razorpay.{mark, mark_paid}
use backend_pluseops.Razorpay.Marking.{marked, mark_paid_once}
use backend_pluseops.Payments.Status.{is_valid_transition}
use backend_pluseops.Payments.Refunding.{RefundApi, refund}
use backend_pluseops.Payments.Refunding.Bounded.{Refunded, refund-Refunded}
use backend_pluseops.Payments.Webhooks.{WebhookRequest, payment_succeeded, resolve, handle_webhook}
use backend_pluseops.Payments.Webhooks.Once.{Handled, handle_webhook-Handled}
use backend_pluseops.CashRegister.{out, add_movement, close, expected_cash, amount_of, session_of}
use backend_pluseops.CashRegister.Drawer.{
  IsCovered, Balanced, add_movement-IsCovered, close-Balanced,
}
use backend_pluseops.Examples.{payment, session, new_shop, open_shop, paid_shop}

abbrev confirmation : ConfirmRequest
confirmation = record { payment_id = some 50; provider_payment_id = none; simulate_failure = false }

abbrev state_of : {A : Type 0} → Result (A × Db) → Db
state_of (ok r) = r.1
state_of (err e) = new_shop

confirmed : confirm 1 confirmation open_shop ≡ ok (50, state_of (confirm 1 confirmation open_shop))
unfolding confirm confirm_tx is_valid_transition put_payment add_transaction lookup upsert
confirmed = refl

abbrev api : RefundApi
api = record { has_credentials = λ tenant. false; refund_payment = λ tenant id amount. none }

refund-Refunded_example :
    Ensures
      (λ _ s'.
        (p : Payment) × (1 ≤ 600)
        × (payment_of 1 50 paid_shop ≡ some p)
        × Refunded 1 50 p.amount 600 paid_shop s')
      (refund api 1 50 600 paid_shop)
refund-Refunded_example = refund-Refunded api 1 50 600 paid_shop

abbrev event : WebhookRequest
event = record {
  event_id = some 77;
  kind = payment_succeeded;
  payment_id = some 50;
  provider_payment_id = none;
  provider_transaction_id = none;
  amount = none;
  tenant_id = some 1;
  signature_ok = true;
}

-- The shop that has seen the event.
abbrev told_shop : Db
told_shop = record paid_shop {
  webhook_events = record { tenant = 1; payment_id = some 50; event_id = 77 } ∷ [];
}

handle_webhook-Handled_example : Ensures (Handled event open_shop) (handle_webhook event open_shop)
handle_webhook-Handled_example = handle_webhook-Handled event open_shop

resolves :
    resolve event told_shop ≡ ok (77, 1, 50, record payment { status = PaymentStatus.completed })
unfolding resolve lookup
resolves = refl

covered : IsCovered 60 session new_shop
unfolding expected_cash amount_of ◌+ℤ◌ ◌-ℤ◌
covered = omega arith

finds_session : session_of 1 60 new_shop ≡ some session
unfolding lookup
finds_session = refl

add_movement-IsCovered_example :
    Ensures (λ _ t. IsCovered 60 session t) (add_movement 1 2 60 out 400 new_shop)
add_movement-IsCovered_example =
    add_movement-IsCovered 1 2 60 out 400 session new_shop finds_session covered

close-Balanced_example : Ensures (λ _ t. Balanced 1 60 9900 new_shop t) (close 1 2 60 9900 new_shop)
close-Balanced_example = close-Balanced 1 2 60 9900 new_shop

closes : close 1 2 60 9900 new_shop ≡ ok (tt, state_of (close 1 2 60 9900 new_shop))
unfolding close put_session add_audit lookup upsert
closes = refl

-- The shop after its payment is marked paid by the capture 33.
abbrev marked_shop : Db
marked_shop = state_of (mark_paid 1 50 33 (pure tt) open_shop)

marks : mark_paid 1 50 33 (pure tt) open_shop ≡ ok (tt, marked_shop)
unfolding mark_paid mark put_payment add_transaction lookup upsert
marks = refl

finds_payment : payment_of 1 50 open_shop ≡ some payment
unfolding lookup
finds_payment = refl

mark_paid_once_example :
    (payment_of 1 50 marked_shop ≡ some (marked 33 payment))
    × (marked_shop.transactions ≡ charge_entry 50 28600 PaymentStatus.completed 33 payment ∷ [])
    × (mark_paid 1 50 33 (pure tt) marked_shop ≡ ok (tt, marked_shop))
mark_paid_once_example =
    mark_paid_once 1 50 33 payment open_shop marked_shop finds_payment refl marks
