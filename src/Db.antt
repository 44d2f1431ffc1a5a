-- ===== src/Db.antt =====
-- The database that the order, payment and counter services write: one table for each model of
-- prisma/schema.prisma that they touch. Ids are UUIDs, provider ids are opaque texts; both are only
-- compared, so they are numbers. `next_id` stands for the generator of fresh UUIDs. An amount of
-- type Decimal(12, 2) is its number of paise, the integer that `cents`, `toCents` and `money`
-- convert it from and to.
mod Rows
pub use Rows.*
use backend_pluseops.Base.{
  nat_eq, ◌≡◌, inl, inr, Result-cases, arith, ℕ, ◌+◌, List, ◌∷◌, Result, ok, err, Tx, pure, ◌>>=◌,
}
use backend_pluseops.Base.Tables.{Table, upsert}
use backend_pluseops.Stock.{Stock}

pub record Db : Type 0 where
  pub stock : Stock
  pub orders : Table ℕ Order
  -- "invoice_sequences", by tenant and financial year
  pub sequences : Table (ℕ × ℕ) ℕ
  pub history : List HistoryEntry
  pub audit : List AuditEntry
  pub payments : Table ℕ Payment
  pub transactions : List Transaction
  pub refunds : List Refund
  pub webhook_events : List WebhookEvent
  pub sessions : Table ℕ CashSession
  pub cash_movements : List CashMovement
  pub next_id : ℕ

-- A step on the stock tables, within the transaction.
abbrev pub on_stock : {A : Type 0} → Tx Stock A → Tx Db A
on_stock m s = elim (m s.stock) [ ok r ↦ ok (r.0, record s { stock = r.1 }) | err e ↦ err e ]

-- `randomUUID()`
abbrev pub fresh_id : Tx Db ℕ
fresh_id s = ok (s.next_id, record s { next_id = s.next_id + 1 })

unfoldable pub put_order : ℕ → Order → Db → Db
put_order id o s = record s { orders = upsert id o s.orders }

unfoldable pub add_history : HistoryEntry → Db → Db
add_history h s = record s { history = h ∷ s.history }

-- `auditService.logAudit` and `logActivity`, which write a row each
unfoldable pub add_audit : AuditEntry → Db → Db
add_audit a s = record s { audit = a ∷ s.audit }

unfoldable pub put_payment : ℕ → Payment → Db → Db
put_payment id p s = record s { payments = upsert id p s.payments }

unfoldable pub add_transaction : Transaction → Db → Db
add_transaction t s = record s { transactions = t ∷ s.transactions }

unfoldable pub add_refund : Refund → Db → Db
add_refund r s = record s { refunds = r ∷ s.refunds }

unfoldable pub add_webhook_event : WebhookEvent → Db → Db
add_webhook_event e s = record s { webhook_events = e ∷ s.webhook_events }

unfoldable pub put_session : ℕ → CashSession → Db → Db
put_session id c s = record s { sessions = upsert id c s.sessions }

unfoldable pub add_cash_movement : CashMovement → Db → Db
add_cash_movement m s = record s { cash_movements = m ∷ s.cash_movements }

-- A step on the stock tables leaves the others alone.
pub on_stock-eq :
    {A : Type 0} (m : Tx Stock A) (s : Db) (a : A) (t : Db)
    → on_stock m s ≡ ok (a, t)
    → (m s.stock ≡ ok (a, t.stock)) × (t ≡ record s { stock = t.stock })
on_stock-eq m s a t h = elim (Result-cases (m s.stock)) [
  | inl (r, e) ↦ (ground arith, ground arith)
  | inr (x, e) ↦ (ground arith, ground arith)
]
