-- ===== src/Db/Rows.antt =====
-- The rows of prisma/schema.prisma that the order, payment and counter services write. Names,
-- addresses and other texts that no code decides on are left out.
use Prim.Native.String.{String}
use backend_pluseops.Base.{ℕ, Bool, Option, List}
use backend_pluseops.Base.Int.{ℤ}
use backend_pluseops.Gst.{StateCode, TaxSplit}

pub data OrderStatus : Type 0 where
  draft pending confirmed processing shipped delivered : OrderStatus
  cancelled refunded partially_refunded : OrderStatus

-- A line of an order: what was priced, and the "OrderItem" row made of it.
pub record Line : Type 0 where
  pub variant : ℕ
  pub warehouse : ℕ
  pub quantity : ℕ
  pub unit_price : ℕ
  pub discount : ℕ
  pub rate : ℕ
  pub taxable : ℕ
  pub tax : ℕ
  pub line_total : ℕ
  pub split : TaxSplit

pub data Channel : Type 0 where
  staff storefront pos : Channel

pub record Order : Type 0 where
  pub tenant : ℕ
  pub customer : ℕ
  pub status : OrderStatus
  pub subtotal : ℕ
  pub discount_total : ℕ
  pub tax_total : ℕ
  pub shipping_total : ℕ
  pub total : ℕ
  pub gst_totals : TaxSplit
  pub intra_state : Bool
  pub place_of_supply : Option StateCode
  -- the financial year by its first year, and the number within it
  pub invoice_year : ℕ
  pub invoice_sequence : ℕ
  pub currency : String
  pub channel : Channel
  pub items : List Line

pub record HistoryEntry : Type 0 where
  pub tenant : ℕ
  pub order_id : ℕ
  pub from_status : Option OrderStatus
  pub to_status : OrderStatus
  pub reason : Option String
  pub created_by : ℕ

pub data Action : Type 0 where
  create update : Action

pub data Resource : Type 0 where
  order cash_register : Resource

-- An audit row and its activity row.
pub record AuditEntry : Type 0 where
  pub tenant : ℕ
  pub user : ℕ
  pub action : Action
  pub resource : Resource
  pub resource_id : ℕ
  pub activity : String

pub data PaymentStatus : Type 0 where
  pending processing completed failed refunded partially_refunded cancelled : PaymentStatus

pub data Provider : Type 0 where
  razorpay : Provider
  other : String → Provider

pub record Payment : Type 0 where
  pub tenant : ℕ
  pub order_id : ℕ
  pub amount : ℕ
  pub currency : String
  pub status : PaymentStatus
  pub provider : Provider
  pub provider_payment_id : ℕ
  -- `metadata.amountMinor`, `metadata.keyId` and `metadata.razorpayPaymentId`
  pub amount_minor : Option ℕ
  pub key_id : Option ℕ
  pub razorpay_payment_id : Option ℕ

pub data TransactionType : Type 0 where
  charge refund : TransactionType

pub record Transaction : Type 0 where
  pub tenant : ℕ
  pub payment_id : ℕ
  pub kind : TransactionType
  pub amount : ℕ
  pub status : PaymentStatus
  pub provider_transaction_id : ℕ

-- Every refund that the service writes is COMPLETED.
pub record Refund : Type 0 where
  pub tenant : ℕ
  pub payment_id : ℕ
  pub amount : ℕ
  pub completed : Bool
  pub provider_refund_id : ℕ

pub record WebhookEvent : Type 0 where
  pub tenant : ℕ
  pub payment_id : Option ℕ
  pub event_id : ℕ

pub record CashSession : Type 0 where
  pub tenant : ℕ
  pub register : ℕ
  pub opening_float : ℕ
  pub is_open : Bool
  pub expected_cash : Option ℤ
  pub counted_cash : Option ℕ
  pub variance : Option ℤ

pub data CashType : Type 0 where
  sale cash_refund cash_in cash_out : CashType

pub record CashMovement : Type 0 where
  pub tenant : ℕ
  pub session_id : ℕ
  pub kind : CashType
  pub amount : ℕ
  pub order_id : Option ℕ
  pub payment_id : Option ℕ
