-- ===== src/Payments/Refunding.antt =====
-- `refund` of src/modules/payments/payments.service.js and `refundAtProvider` of
-- src/modules/payments/razorpay-payments.service.js.
pub mod Bounded
use backend_pluseops.Base.{
  ℕ, ◌+◌, ◌-◌, Bool, true, false, not, ◌&&◌, ◌||◌, Option, none, some, Error, ok, Tx, ◌>>=◌, ◌>>◌,
  raise_if, or_raise, raise, pure, modify, nat_eq, ◌==◌, ltb, leb, get_or, if◌then◌else◌,
  payment_not_found, invalid_state_transition, invalid_refund_state, invalid_refund_amount,
  excessive_refund, payment_gateway_not_configured, integration_error, database_fault, ◌∷◌,
}
use backend_pluseops.Base.Lists.{sum_of}
use backend_pluseops.Db.{
  Db, Payment, PaymentStatus, Provider, Refund, Transaction, TransactionType, fresh_id, put_payment,
  add_transaction, add_refund,
}
use backend_pluseops.Payments.{payment_of}
use backend_pluseops.Payments.Status.{is_refundable, is_valid_transition, same}

-- The shop's Razorpay account, with the keys of the tenant, if any, and the answer to a refund of
-- an amount of a captured payment: Razorpay's id for it, or a failure.
pub record RefundApi : Type 0 where
  pub has_credentials : ℕ → Bool
  pub refund_payment : ℕ → ℕ → ℕ → Option ℕ

-- The COMPLETED refunds of a payment, summed.
unfoldable pub refunded_amount : ℕ → ℕ → Db → ℕ
refunded_amount tenant id s =
    sum_of (λ r. if r.payment_id == id && (r.tenant == tenant && r.completed) then r.amount else 0)
      s.refunds

is_razorpay : Provider → Bool
is_razorpay Provider.razorpay = true
is_razorpay _ = false

-- `refundAtProvider`
unfoldable pub refund_at_provider : RefundApi → Payment → ℕ → Tx Db ℕ
refund_at_provider api p amount = do
  captured ← or_raise p.razorpay_payment_id invalid_refund_state
  raise_if (not (api.has_credentials p.tenant)) payment_gateway_not_configured
  or_raise (api.refund_payment p.tenant captured amount) integration_error

-- A refund through Razorpay has Razorpay's id, any other a made one.
provider_refund_id : RefundApi → Payment → ℕ → Tx Db ℕ
provider_refund_id api p amount = do
  made ← fresh_id
  (if is_razorpay p.provider then refund_at_provider api p amount else pure made)

-- The refund and its entry in the log of transactions.
write_refund : ℕ → ℕ → ℕ → ℕ → Tx Db Unit
write_refund tenant id amount provider_id = do
  modify (
      add_refund (record {
        tenant = tenant;
        payment_id = id;
        amount = amount;
        completed = true;
        provider_refund_id = provider_id;
      }))
  modify (
      add_transaction (record {
        tenant = tenant;
        payment_id = id;
        kind = TransactionType.refund;
        amount = amount;
        status = PaymentStatus.completed;
        provider_transaction_id = provider_id;
      }))

-- The status that follows from the paid amount and the refunds in all.
abbrev pub status_after : ℕ → ℕ → PaymentStatus
status_after paid refunded_in_all =
    if leb paid refunded_in_all then PaymentStatus.refunded else PaymentStatus.partially_refunded

-- The change of status that ends the transaction.
abbrev settle : ℕ → Payment → PaymentStatus → Tx Db Unit
settle id p status = do
  raise_if (not (is_valid_transition p.status status) && not (same p.status status))
      invalid_state_transition
  modify (put_payment id (record p { status = status }))

-- The transaction; `paid` is the amount of the payment as it was read before.
unfoldable pub refund_tx : RefundApi → ℕ → ℕ → ℕ → ℕ → Tx Db Unit
unfolding provider_refund_id is_razorpay write_refund
refund_tx api tenant id paid amount s =
    let before = refunded_amount tenant id s in
    let status = status_after paid (before + amount) in
    (do
      p ← or_raise (payment_of tenant id s) database_fault
      raise_if (ltb p.amount (before + amount)) excessive_refund
      raise_if (not (is_refundable p.status)) invalid_refund_state
      provider_id ← provider_refund_id api p amount
      write_refund tenant id amount provider_id
      settle id p status)
      s

-- `PaymentService.refund`
unfoldable pub refund : RefundApi → ℕ → ℕ → ℕ → Tx Db Unit
refund api tenant id amount s =
    (do
      p ← or_raise (payment_of tenant id s) payment_not_found
      raise_if (not (is_refundable p.status)) invalid_refund_state
      raise_if (amount == 0) invalid_refund_amount
      raise_if (ltb p.amount (refunded_amount tenant id s + amount)) excessive_refund
      refund_tx api tenant id p.amount amount)
      s
