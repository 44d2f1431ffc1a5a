-- ===== src/Pos.antt =====
-- `sale` and `verifyRazorpayUpi` of src/modules/pos/pos.service.js: an order of the channel POS
-- whose hook takes the payments and hands it over, in the transaction of `create`.
-- The walk-in customer, the default warehouse and the default register are parameters, and so is
-- Razorpay. A call on a session that is null is a fault.
pub mod Sold
use Prim.Native.String.{String}
use backend_pluseops.Base.{
  ℕ, ◌+◌, Bool, true, false, not, ◌&&◌, Option, none, some, List, [], ◌∷◌, Error, Result, ok, err,
  Tx, ◌>>=◌, ◌>>◌, raise_if, or_raise, raise, pure, modify, nat_eq, ◌==◌, ltb, is_some, get_or, map,
  if◌then◌else◌, no_warehouse, register_closed, payment_gateway_not_configured,
  upi_payment_not_received, upi_payment_already_used, payment_total_mismatch, cash_short,
  database_fault,
}
use backend_pluseops.Base.Lists.{any, sum_of}
use backend_pluseops.Db.{
  Db, Order, OrderStatus, Payment, PaymentStatus, Provider, Transaction, TransactionType,
  HistoryEntry, CashSession, Channel, fresh_id, put_payment, add_transaction, add_history,
}
use backend_pluseops.CashRegister.{open_session_for, record_sale}
use backend_pluseops.Payments.{charge_entry}
use backend_pluseops.Retry.{Faults}
use backend_pluseops.Orders.Pricing.{Item}
use backend_pluseops.Orders.Planning.{Reads, OrderRequest}
use backend_pluseops.Orders.Placing.{create}
use backend_pluseops.Orders.Changing.{set_status}

pub data Method : Type 0 where
  cash upi card bank cheque : Method

abbrev pub is_cash : Method → Bool
is_cash cash = true
is_cash _ = false

is_upi : Method → Bool
is_upi upi = true
is_upi _ = false

-- A payment of the body. `confirmed` is the `razorpayPaymentId` that the check of its QR adds.
pub record Tender : Type 0 where
  pub method : Method
  pub amount : ℕ
  pub tendered : Option ℕ
  pub qr : Option ℕ
  pub confirmed : Option ℕ

pub record SaleRequest : Type 0 where
  pub customer_id : Option ℕ
  pub warehouse_id : Option ℕ
  pub register_id : Option ℕ
  pub items : List Item
  pub payments : List Tender

-- `captured` is the captured payment of a QR with this amount.
pub record Shop : Type 0 where
  pub walk_in : ℕ
  pub default_warehouse : Option ℕ
  pub default_register : ℕ
  pub has_credentials : Bool
  pub captured : ℕ → ℕ → Option ℕ

is_razorpay : Provider → Bool
is_razorpay Provider.razorpay = true
is_razorpay _ = false

-- Whether a sale has used this payment.
abbrev is_used : ℕ → ℕ → Db → Bool
is_used tenant paid s =
    any (λ r. r.1.tenant == tenant && (is_razorpay r.1.provider && r.1.provider_payment_id == paid))
      s.payments

-- `verifyRazorpayUpi`
unfoldable pub verify_upi : Shop → ℕ → ℕ → ℕ → Tx Db ℕ
unfolding is_razorpay
verify_upi shop tenant qr amount s =
    (do
      raise_if (not shop.has_credentials) payment_gateway_not_configured
      paid ← or_raise (shop.captured qr amount) upi_payment_not_received
      raise_if (is_used tenant paid s) upi_payment_already_used
      pure paid)
      s

verify_tender : Shop → ℕ → Tender → Option ℕ → Tx Db Tender
verify_tender shop tenant p none = pure p
verify_tender shop tenant p (some qr) =
    if is_upi p.method
    then (do paid ← verify_upi shop tenant qr p.amount; pure (record p { confirmed = some paid }))
    else pure p

-- The loop that confirms the UPI payments.
unfoldable pub verify_tenders : Shop → ℕ → List Tender → Tx Db (List Tender)
unfolding verify_tender is_upi
verify_tenders shop tenant [] = pure []
verify_tenders shop tenant (p ∷ ps) = do
  q ← verify_tender shop tenant p p.qr
  rest ← verify_tenders shop tenant ps
  pure (q ∷ rest)

-- `payments.reduce((n, p) => n + p.amountCents, 0)`
abbrev pub paid_in_all : List Tender → ℕ
paid_in_all payments = sum_of (λ (p : Tender). p.amount) payments

-- The same over the cash payments.
abbrev pub cash_in_all : List Tender → ℕ
cash_in_all payments = sum_of (λ (p : Tender). if is_cash p.method then p.amount else 0) payments

is_short : Tender → Option ℕ → Bool
is_short p none = false
is_short p (some t) = is_cash p.method && ltb t p.amount

provider_name : Method → String
provider_name cash = "cash"
provider_name upi = "upi"
provider_name card = "card"
provider_name bank = "bank"
provider_name cheque = "cheque"

-- The payment's row: razorpay's for a confirmed UPI payment, else the method's with a made id.
abbrev tender_row : ℕ → Order → Tender → ℕ → Payment
tender_row order_id o p made = record {
  tenant = o.tenant;
  order_id = order_id;
  amount = p.amount;
  currency = o.currency;
  status = PaymentStatus.completed;
  provider =
      if is_upi p.method && is_some p.confirmed
      then Provider.razorpay
      else Provider.other (provider_name p.method);
  provider_payment_id = if is_upi p.method then get_or p.confirmed made else made;
  amount_minor = none;
  key_id = none;
  razorpay_payment_id = none;
}

drawer_entry : ℕ → Option (ℕ × CashSession) → ℕ → ℕ → Tender → Tx Db Unit
drawer_entry tenant none order_id payment_id p =
    if is_cash p.method then raise database_fault else pure tt
drawer_entry tenant (some session) order_id payment_id p =
    if is_cash p.method then record_sale tenant session.0 p.amount order_id payment_id else pure tt

-- One payment of the loop in `inTx`.
unfoldable pub take_payment : Option (ℕ × CashSession) → ℕ → Order → Tender → Tx Db Unit
unfolding is_short is_upi provider_name drawer_entry
take_payment session order_id o p = do
  raise_if (is_short p p.tendered) cash_short
  made ← fresh_id
  id ← fresh_id
  modify (put_payment id (tender_row order_id o p made))
  entry ← fresh_id
  modify (
      add_transaction
        (charge_entry id p.amount PaymentStatus.completed entry (tender_row order_id o p made)))
  drawer_entry o.tenant session order_id id p

unfoldable pub take_payments : Option (ℕ × CashSession) → ℕ → Order → List Tender → Tx Db Unit
take_payments session order_id o [] = pure tt
take_payments session order_id o (p ∷ ps) = do
  take_payment session order_id o p
  take_payments session order_id o ps

-- `inTx`
unfoldable pub sale_hook : ℕ → Option (ℕ × CashSession) → List Tender → ℕ → Order → Tx Db Unit
sale_hook user session payments id o = do
  raise_if (not (paid_in_all payments == o.total)) payment_total_mismatch
  take_payments session id o payments
  set_status id OrderStatus.delivered
  modify (
      add_history (record {
        tenant = o.tenant;
        order_id = id;
        from_status = some OrderStatus.pending;
        to_status = OrderStatus.delivered;
        reason = some "Counter sale";
        created_by = user;
      }))

-- Cash needs an open session.
session_for : Shop → ℕ → SaleRequest → Tx Db (Option (ℕ × CashSession))
session_for shop tenant body s =
    if cash_in_all body.payments == 0
    then ok (none, s)
    else (do
      c ←
          or_raise (open_session_for tenant (get_or body.register_id shop.default_register) s)
            register_closed
      pure (some c))
        s

abbrev warehouse_of : Shop → SaleRequest → Option ℕ
warehouse_of shop body = elim body.warehouse_id [ some w ↦ some w | none ↦ shop.default_warehouse ]

-- The body of the order.
abbrev order_body : Shop → SaleRequest → ℕ → OrderRequest
order_body shop body warehouse = record {
  customer_id = get_or body.customer_id shop.walk_in;
  items = map (λ (i : Item). record i { warehouse = warehouse }) body.items;
  shipping_total = 0;
  currency = none;
  shipping_address_id = none;
  billing_address_id = none;
  channel = some Channel.pos;
}

-- `PosService.sale`
unfoldable pub sale : Shop → Reads → Faults → ℕ → ℕ → ℕ → SaleRequest → Tx Db ℕ
unfolding session_for
sale shop reads faults tenant user year body = do
  warehouse ← or_raise (warehouse_of shop body) no_warehouse
  session ← session_for shop tenant body
  payments ← verify_tenders shop tenant body.payments
  create reads faults tenant user year (order_body shop body warehouse)
      (sale_hook user session payments)
