-- ===== src/Examples.antt =====
-- A shop with one variant and two warehouses: tests of the operations, and the theorems at concrete
-- inputs.
pub mod Money
pub mod Goods
pub mod Paying
pub mod People
pub mod Recovering
pub mod Permits
pub mod Returns
pub mod Settling
pub mod Reporting
pub mod Downloads
pub mod Logging
pub mod Ranging
use backend_pluseops.Base.{
  ℕ, true, false, not, some, none, [], ◌∷◌, ok, pure, ◌==◌, ◌&&◌, ◌||◌, refl, if◌then◌else◌, arith,
  Tx,
}
use backend_pluseops.Base.Tables.{quantity}
use backend_pluseops.Base.Int.{pos, negsuc}
use backend_pluseops.Gst.{Product, Taxability}
use backend_pluseops.Catalog.{Catalog, Variant, active}
use backend_pluseops.Stock.{Key, key_instance, Stock, Movement, order_reservation}
use backend_pluseops.Stock.Ledger.{IsAccounted}
use backend_pluseops.Db.{
  Db, Order, OrderStatus, Line, Channel, Payment, PaymentStatus, Provider, CashSession,
}
use backend_pluseops.Orders.Pricing.{Item}
use backend_pluseops.Orders.Planning.{Reads, OrderRequest, Settings, Customer}
use backend_pluseops.Retry.{Faults}

abbrev pub shirt : Variant
shirt = record {
  status = active;
  price_cents = 10000;
  product = record { gst_taxability = some Taxability.taxable; gst_rate = some 1800 };
}

abbrev pub catalog : Catalog
catalog = record {
  variant = λ tenant v. if tenant == 1 && v == 7 then some shirt else none;
  has_warehouse = λ tenant w. tenant == 1 && (w == 3 || w == 4);
}

abbrev pub shelf : Key
shelf = record { tenant = 1; variant = 7; warehouse = 3 }

abbrev pub store : Key
store = record { tenant = 1; variant = 7; warehouse = 4 }

abbrev pub stock : Stock
stock = record {
  inventory = (shelf, 5) ∷ [];
  warehouse_inventory = (shelf, 5) ∷ [];
  movements = [];
}

abbrev pub opening : Key → ℕ
opening k = quantity k stock.inventory

pub stock-IsAccounted : IsAccounted opening stock
stock-IsAccounted = record { ledger = λ k. omega arith; mirror = λ k. refl }

abbrev pub calm : Faults
calm attempt = none

abbrev pub item : Item
item = record { variant = 7; warehouse = 3; quantity = pos 2; discount = pos 0; tax = none }

abbrev pub reads : Reads
reads = record {
  catalog = catalog;
  settings = λ tenant. record {
    gst_rate = none;
    currency = none;
    registration = none;
    prices_include_tax = false;
    state_code = some 29;
  };
  customer = λ tenant id. some (record { state_code = some 29; gstin_state = none });
  default_address = λ tenant customer kind. none;
  address = λ tenant customer id. none;
  order_limit = λ tenant. none;
  orders_this_month = λ tenant. 0;
  default_gst_rate = 1800;
}

abbrev pub body : OrderRequest
body = record {
  customer_id = 6;
  items = item ∷ [];
  shipping_total = 5000;
  currency = none;
  shipping_address_id = none;
  billing_address_id = none;
  channel = none;
}

abbrev pub line : Line
line = record {
  variant = 7;
  warehouse = 3;
  quantity = 2;
  unit_price = 10000;
  discount = 0;
  rate = 1800;
  taxable = 20000;
  tax = 3600;
  line_total = 23600;
  split = record { cgst = 1800; sgst = 1800; igst = 0 };
}

abbrev pub order : Order
order = record {
  tenant = 1;
  customer = 6;
  status = OrderStatus.pending;
  subtotal = 20000;
  discount_total = 0;
  tax_total = 3600;
  shipping_total = 5000;
  total = 28600;
  gst_totals = record { cgst = 1800; sgst = 1800; igst = 0 };
  intra_state = true;
  place_of_supply = some 29;
  invoice_year = 2025;
  invoice_sequence = 1;
  currency = "INR";
  channel = Channel.staff;
  items = line ∷ [];
}

-- What the order reserved.
abbrev pub reserved : Movement
reserved = record {
  key = shelf;
  kind = order_reservation;
  quantity_before = 7;
  quantity_changed = negsuc 1;
  quantity_after = 5;
  reason = "ORDER_CREATED";
  reference_type = some "ORDER";
  reference_id = some 40;
  created_by = 2;
}

abbrev pub payment : Payment
payment = record {
  tenant = 1;
  order_id = 40;
  amount = 28600;
  currency = "INR";
  status = PaymentStatus.pending;
  provider = Provider.other "mock";
  provider_payment_id = 90;
  amount_minor = none;
  key_id = none;
  razorpay_payment_id = none;
}

abbrev pub session : CashSession
session = record {
  tenant = 1;
  register = 8;
  opening_float = 10000;
  is_open = true;
  expected_cash = none;
  counted_cash = none;
  variance = none;
}

-- Nothing sold yet.
abbrev pub new_shop : Db
new_shop = record {
  stock = stock;
  orders = [];
  sequences = [];
  history = [];
  audit = [];
  payments = [];
  transactions = [];
  refunds = [];
  webhook_events = [];
  sessions = (60, session) ∷ [];
  cash_movements = [];
  next_id = 100;
}

-- Seven pieces at first, two of them reserved for an order that has a pending payment.
abbrev pub open_shop : Db
open_shop = record new_shop {
  stock = record stock { movements = reserved ∷ [] };
  orders = (40, order) ∷ [];
  payments = (50, payment) ∷ [];
}

-- The same, paid.
abbrev pub paid_shop : Db
paid_shop = record open_shop {
  payments = (50, record payment { status = PaymentStatus.completed }) ∷ [];
}
