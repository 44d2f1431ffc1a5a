-- ===== src/Pos/Sold.antt =====
-- What a counter sale does to the stock.
use backend_pluseops.Base.{
  ℕ, ◌≡◌, refl, ◌∙◌, not, ◌==◌, Option, none, some, List, [], ◌∷◌, Tx, Ensures, Ensures-follow,
  Ensures-ok, Ensures-mono, Ensures-or_raise, Ensures-raise_if, arith, nat_eq, Bool-cases, inl, inr,
  no_warehouse, cash_short, payment_total_mismatch, payment_gateway_not_configured,
  upi_payment_not_received, upi_payment_already_used, register_closed, pure, get_or, ◌>>=◌,
}
use backend_pluseops.Db.{
  Db, Order, put_order, OrderStatus, CashSession, put_payment, add_transaction, add_history,
  add_cash_movement,
}
use backend_pluseops.Stock.{Key}
use backend_pluseops.Stock.Ledger.{IsAccounted}
use backend_pluseops.Retry.{Faults}
use backend_pluseops.CashRegister.{record_sale, open_session_for}
use backend_pluseops.Orders.Planning.{Reads}
use backend_pluseops.Orders.Changing.{set_status}
use backend_pluseops.Orders.Changing.Updating.{set_status-eq}
use backend_pluseops.Orders.Placing.Placed.{IsApart, create-IsAccounted}
use backend_pluseops.Pos.{
  Tender, Shop, SaleRequest, is_short, drawer_entry, take_payment, take_payments, sale_hook,
  verify_upi, verify_tender, verify_tenders, session_for, warehouse_of, order_body, sale,
  paid_in_all, cash_in_all, is_upi, is_used,
}

abbrev Keeps : {A : Type 0} → Tx Db A → Type 0
Keeps m = (s : Db) → Ensures (λ _ t. t.stock ≡ s.stock) (m s)

Keeps-follow :
    {A B : Type 0} (m : Tx Db A) (f : A → Tx Db B)
    → Keeps m
    → ((a : A) → Keeps (f a))
    → Keeps (m >>= f)
Keeps-follow m f h k s = Ensures-follow _ (m s) f λ a t e.
    let kept = Ensures-ok (λ _ t. t.stock ≡ s.stock) (m s) a t (h s) e in
    Ensures-mono (λ _ u. u.stock ≡ t.stock) _ (f a t) (k a t) (λ b u same. same ∙ kept)

drawer_entry-Keeps :
    (tenant : ℕ) (session : Option (ℕ × CashSession)) (order_id payment_id : ℕ) (p : Tender)
    → Keeps (drawer_entry tenant session order_id payment_id p)
unfolding drawer_entry record_sale add_cash_movement
drawer_entry-Keeps tenant none order_id payment_id p s = ground arith
drawer_entry-Keeps tenant (some c) order_id payment_id p s = ground arith

take_payment-Keeps :
    (session : Option (ℕ × CashSession)) (order_id : ℕ) (o : Order) (p : Tender)
    → Keeps (take_payment session order_id o p)
unfolding take_payment put_payment add_transaction
take_payment-Keeps session order_id o p s =
    Ensures-raise_if _ (is_short p p.tendered) cash_short _ s
      λ enough. drawer_entry-Keeps o.tenant session order_id _ p _

take_payments-Keeps :
    (session : Option (ℕ × CashSession)) (order_id : ℕ) (o : Order) (ps : List Tender)
    → Keeps (take_payments session order_id o ps)
unfolding take_payments
take_payments-Keeps session order_id o [] s = refl
take_payments-Keeps session order_id o (p ∷ ps) s =
    Keeps-follow (take_payment session order_id o p) _ (take_payment-Keeps session order_id o p)
      (λ _. take_payments-Keeps session order_id o ps) s

sale_hook-IsApart :
    (user : ℕ) (session : Option (ℕ × CashSession)) (payments : List Tender)
    → IsApart (sale_hook user session payments)
unfolding sale_hook add_history put_order
sale_hook-IsApart user session payments = record {
  stock = λ id o s.
      let P : Unit {0} → Db → Type 0 = λ _ t. t.stock ≡ s.stock in
      Ensures-raise_if P (not (paid_in_all payments == o.total)) payment_total_mismatch _ s λ exact.
        Ensures-follow P (take_payments session id o payments s) _ λ x t e.
          let kept =
            Ensures-ok P (take_payments session id o payments s) x t
              (take_payments-Keeps session id o payments s) e in
          Ensures-follow P (set_status id OrderStatus.delivered t) _
            λ y u f. rw (set_status-eq id OrderStatus.delivered t u f).1 kept;
}

-- What only reads.
abbrev OnlyReads : {A : Type 0} → Tx Db A → Type 0
OnlyReads m = (s : Db) → Ensures (λ _ t. t ≡ s) (m s)

verify_upi-reads :
    (shop : Shop) (tenant qr amount : ℕ) → OnlyReads (verify_upi shop tenant qr amount)
unfolding verify_upi
verify_upi-reads shop tenant qr amount s =
    let P : ℕ → Db → Type 0 = λ _ t. t ≡ s in
    Ensures-raise_if P (not shop.has_credentials) payment_gateway_not_configured _ s λ connected.
      Ensures-or_raise P (shop.captured qr amount) upi_payment_not_received _ s λ paid found.
        Ensures-raise_if P (is_used tenant paid s) upi_payment_already_used (pure paid) s
          λ fresh. refl

verify_tender-reads :
    (shop : Shop) (tenant : ℕ) (p : Tender) (qr : Option ℕ)
    → OnlyReads (verify_tender shop tenant p qr)
unfolding verify_tender
verify_tender-reads shop tenant p none s = refl
verify_tender-reads shop tenant p (some qr) s = elim (Bool-cases (is_upi p.method)) [
  | inl e ↦ rw e (
      Ensures-follow _ (verify_upi shop tenant qr p.amount s) _ λ paid t f.
        Ensures-ok (λ _ t. t ≡ s) _ paid t (verify_upi-reads shop tenant qr p.amount s) f)
  | inr e ↦ rw e refl
]

verify_tenders-reads :
    (shop : Shop) (tenant : ℕ) (ps : List Tender) → OnlyReads (verify_tenders shop tenant ps)
unfolding verify_tenders
verify_tenders-reads shop tenant [] s = refl
verify_tenders-reads shop tenant (p ∷ ps) s =
    Ensures-follow _ (verify_tender shop tenant p p.qr s) _ λ q t e.
      Ensures-follow _ (verify_tenders shop tenant ps t) _ λ qs u f.
        Ensures-ok (λ _ v. v ≡ t) _ qs u (verify_tenders-reads shop tenant ps t) f
        ∙ Ensures-ok (λ _ v. v ≡ s) _ q t (verify_tender-reads shop tenant p p.qr s) e

session_for-reads :
    (shop : Shop) (tenant : ℕ) (body : SaleRequest) → OnlyReads (session_for shop tenant body)
unfolding session_for
session_for-reads shop tenant body s = elim (Bool-cases (cash_in_all body.payments == 0)) [
  | inl e ↦ rw e refl
  | inr e ↦ rw e (
      Ensures-or_raise (λ (_ : Option (ℕ × CashSession)) t. t ≡ s)
        (open_session_for tenant (get_or body.register_id shop.default_register) s) register_closed
        (λ c. pure (some c)) s λ c found. refl)
]

-- A counter sale, which takes its payments and hands over the goods in the transaction of the order,
-- leaves the movements accounting for the stock and the mirror in agreement, if they were before.
pub sale-IsAccounted :
    (opening : Key → ℕ) (shop : Shop) (reads : Reads) (faults : Faults) (tenant user year : ℕ)
    (body : SaleRequest) (s : Db)
    → IsAccounted opening s.stock
    → Ensures (λ _ t. IsAccounted opening t.stock) (sale shop reads faults tenant user year body s)
unfolding sale
sale-IsAccounted opening shop reads faults tenant user year body s v =
    let P : ℕ → Db → Type 0 = λ _ t. IsAccounted opening t.stock in
    Ensures-or_raise P (warehouse_of shop body) no_warehouse _ s λ warehouse found.
      Ensures-follow P (session_for shop tenant body s) _ λ session t e.
        Ensures-follow P (verify_tenders shop tenant body.payments t) _ λ payments u f.
          let same =
            Ensures-ok (λ _ w. w ≡ t) _ payments u
              (verify_tenders-reads shop tenant body.payments t) f
            ∙ Ensures-ok (λ _ w. w ≡ s) _ session t (session_for-reads shop tenant body s) e in
          create-IsAccounted opening reads faults tenant user year (order_body shop body warehouse)
            (sale_hook user session payments) u (sale_hook-IsApart user session payments)
            (rw same v)
