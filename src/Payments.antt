-- ===== src/Payments.antt =====
-- src/modules/payments/payments.service.js.
-- Here `create` and `confirm`; `Refunding` has `refund`, `Webhooks` has `handleWebhook`. The
-- payment provider is a parameter. A transaction that locks the payment row reads it again, as the
-- code does: what was read before the transaction is an argument of it.
pub mod Status
pub mod Confirming
pub mod Refunding
pub mod Webhooks
use Prim.Native.String.{String}
use backend_pluseops.Base.{
  ℕ, Bool, true, false, not, ◌&&◌, Option, none, some, List, ◌∷◌, Error, ok, err, Tx, ◌>>=◌, ◌>>◌,
  raise_if, or_raise, raise, pure, modify, gets, nat_eq, ◌==◌, is_some, get_or, if◌then◌else◌,
  order_not_found, order_not_eligible, payment_already_pending, invalid_amount, integration_error,
  payment_not_found, invalid_state_transition,
}
use backend_pluseops.Base.Lists.{find}
use backend_pluseops.Base.Tables.{lookup}
use backend_pluseops.Db.{
  Db, Order, Payment, PaymentStatus, Provider, Transaction, TransactionType, fresh_id, put_payment,
  add_transaction,
}
use backend_pluseops.Orders.Changing.{order_of}
use backend_pluseops.Payments.Status.{is_active, is_eligible, is_valid_transition}

-- `findById`, `findFirst({ where: { id, tenantId } })`
abbrev pub payment_of : ℕ → ℕ → Db → Option Payment
payment_of tenant id s = elim (lookup id s.payments) [
  | none ↦ none
  | some p ↦ if p.tenant == tenant then some p else none
]

-- `findActiveForOrder`
abbrev pub active_for_order : ℕ → ℕ → Db → Option (ℕ × Payment)
active_for_order tenant order_id s =
    find (λ r. r.1.tenant == tenant && (r.1.order_id == order_id && is_active r.1.status))
      s.payments

-- `findByProviderPaymentId`
abbrev pub by_provider_id : ℕ → ℕ → Db → Option (ℕ × Payment)
by_provider_id tenant provider_id s =
    find (λ r. r.1.tenant == tenant && r.1.provider_payment_id == provider_id) s.payments

-- The configured provider. `charge`, given the amount, the currency, the order and the tenant,
-- answers with the provider's id for the payment, if it gives one, or fails (`none`).
pub record Gateway : Type 0 where
  pub is_mock : Bool
  pub default_provider : Provider
  pub charge : ℕ → String → ℕ → ℕ → Option (Option ℕ)

pub record PaymentRequest : Type 0 where
  pub order_id : ℕ
  pub provider : Option Provider

-- The call of the provider, which comes before the transaction.
charge_outside : Gateway → Order → ℕ → Tx Db (Option ℕ)
charge_outside gateway order order_id s =
    if gateway.is_mock
    then ok (none, s)
    else or_raise (gateway.charge order.total order.currency order_id order.tenant)
        integration_error s

-- A charge in the log of transactions.
abbrev pub charge_entry : ℕ → ℕ → PaymentStatus → ℕ → Payment → Transaction
charge_entry id amount status provider_id p = record {
  tenant = p.tenant;
  payment_id = id;
  kind = TransactionType.charge;
  amount = amount;
  status = status;
  provider_transaction_id = provider_id;
}

-- The transaction of `create`.
unfoldable pub create_tx : ℕ → ℕ → Order → Provider → Option ℕ → Tx Db ℕ
create_tx tenant order_id order provider external = do
  made ← fresh_id
  id ← fresh_id
  let payment : Payment = record {
    tenant = tenant;
    order_id = order_id;
    amount = order.total;
    currency = order.currency;
    status = PaymentStatus.pending;
    provider = provider;
    provider_payment_id = get_or external made;
    amount_minor = none;
    key_id = none;
    razorpay_payment_id = none;
  }
  modify (put_payment id payment)
  made_entry ← fresh_id
  modify (add_transaction (charge_entry id order.total PaymentStatus.pending made_entry payment))
  pure id

-- `PaymentService.create`
unfoldable pub create : Gateway → ℕ → PaymentRequest → Tx Db ℕ
unfolding charge_outside
create gateway tenant body s =
    (do
      order ← or_raise (order_of tenant body.order_id s) order_not_found
      raise_if (not (is_eligible order.status)) order_not_eligible
      raise_if (is_some (active_for_order tenant body.order_id s)) payment_already_pending
      raise_if (order.total == 0) invalid_amount
      external ← charge_outside gateway order body.order_id
      create_tx tenant body.order_id order (get_or body.provider gateway.default_provider) external)
      s

pub record ConfirmRequest : Type 0 where
  pub payment_id : Option ℕ
  pub provider_payment_id : Option ℕ
  pub simulate_failure : Bool

abbrev pub with_id : ℕ → Option Payment → Option (ℕ × Payment)
with_id id none = none
with_id id (some p) = some (id, p)

-- By the id when there is one, else by the provider's id.
find_payment : ℕ → Option ℕ → Option ℕ → Db → Option (ℕ × Payment)
find_payment tenant (some id) provider_id s = with_id id (payment_of tenant id s)
find_payment tenant none (some provider_id) s = by_provider_id tenant provider_id s
find_payment tenant none none s = none

-- The transaction of `confirm`.
unfoldable pub confirm_tx : ℕ → ℕ → PaymentStatus → Option ℕ → Tx Db Unit
confirm_tx tenant id target provider_id s =
    (do
      fresh ← or_raise (payment_of tenant id s) invalid_state_transition
      raise_if (not (is_active fresh.status)) invalid_state_transition
      modify (
          put_payment id (record fresh {
            status = target;
            provider_payment_id = get_or provider_id fresh.provider_payment_id;
          }))
      made ← fresh_id
      modify (add_transaction (charge_entry id fresh.amount target made fresh)))
      s

-- `PaymentService.confirm`
unfoldable pub confirm : ℕ → ConfirmRequest → Tx Db ℕ
unfolding find_payment
confirm tenant body s =
    let target = if body.simulate_failure then PaymentStatus.failed else PaymentStatus.completed in
    (do
      found ←
          or_raise (find_payment tenant body.payment_id body.provider_payment_id s)
            payment_not_found
      raise_if (not (is_active found.1.status)) invalid_state_transition
      raise_if (not (is_valid_transition found.1.status target)) invalid_state_transition
      confirm_tx tenant found.0 target body.provider_payment_id
      pure found.0)
      s
