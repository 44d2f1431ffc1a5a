-- ===== src/Trade.antt =====
-- Sequences of calls that move stock: corrections and transfers of src/modules/inventory, orders of
-- src/modules/orders, sales of src/modules/pos. The transactions lock the rows that they change, so
-- that calls take effect one after another.
use Prim.Native.String.{String}
use backend_pluseops.Base.{ℕ, ◌≡◌, Option, some, List, ok, Tx, Ensures-ok}
use backend_pluseops.Base.Lists.{All}
use backend_pluseops.Stock.{Key}
use backend_pluseops.Stock.Ledger.{IsAccounted}
use backend_pluseops.Catalog.{Catalog}
use backend_pluseops.Retry.{Faults}
use backend_pluseops.Inventory.{
  AdjustRequest, Adjusted, LowStock, adjust, TransferRequest, Transferred, transfer,
}
use backend_pluseops.Inventory.Adjusting.{adjust-IsAccounted}
use backend_pluseops.Inventory.Transferring.{transfer-IsAccounted}
use backend_pluseops.Db.{Db, Order, OrderStatus, on_stock, on_stock-eq}
use backend_pluseops.Orders.Planning.{Reads, OrderRequest}
use backend_pluseops.Orders.Placing.{create}
use backend_pluseops.Orders.Placing.Placed.{IsApart, create-IsAccounted}
use backend_pluseops.Orders.Changing.{order_of, update_status, cancel}
use backend_pluseops.Orders.Changing.Updating.{Updated, update_status-Updated}
use backend_pluseops.Orders.Changing.Cancelling.{HasMovements, cancel-IsAccounted}
use backend_pluseops.Pos.{Shop, SaleRequest, sale}
use backend_pluseops.Pos.Sold.{sale-IsAccounted}

-- One call that succeeds; one that fails is rolled back. An order is cancelled with the movements
-- that reserved its items on record.
pub data Step : Db → Db → Type 0 where
  corrected :
      {s t : Db} (catalog : Catalog) (faults : Faults) (tenant user : ℕ) (body : AdjustRequest)
      (answer : Adjusted × List LowStock)
      → on_stock (adjust catalog faults tenant user body) s ≡ ok (answer, t)
      → Step s t
  transferred :
      {s t : Db} (catalog : Catalog) (faults : Faults) (tenant user fresh : ℕ)
      (body : TransferRequest) (answer : Transferred × List LowStock)
      → on_stock (transfer catalog faults tenant user fresh body) s ≡ ok (answer, t)
      → Step s t
  ordered :
      {s t : Db} (reads : Reads) (faults : Faults) (tenant user year id : ℕ) (body : OrderRequest)
      (hook : ℕ → Order → Tx Db (Unit {0}))
      → IsApart hook
      → create reads faults tenant user year body hook s ≡ ok (id, t)
      → Step s t
  sold :
      {s t : Db} (shop : Shop) (reads : Reads) (faults : Faults) (tenant user year id : ℕ)
      (body : SaleRequest)
      → sale shop reads faults tenant user year body s ≡ ok (id, t)
      → Step s t
  restated :
      {s t : Db} (tenant user id : ℕ) (status : OrderStatus) (reason : Option String)
      → update_status tenant user id status reason s ≡ ok (tt, t)
      → Step s t
  cancelled :
      {s t : Db} (tenant user id : ℕ) (reason : Option String) (o : Order)
      → order_of tenant id s ≡ some o
      → All (HasMovements tenant id s.stock) o.items
      → cancel tenant user id reason s ≡ ok (tt, t)
      → Step s t

pub data Run : Db → Db → Type 0 where
  done : {s : Db} → Run s s
  call : {s t u : Db} → Run s t → Step t u → Run s u

Step-IsAccounted :
    (opening : Key → ℕ) (s t : Db)
    → Step s t
    → IsAccounted opening s.stock
    → IsAccounted opening t.stock
Step-IsAccounted opening s t (corrected catalog faults tenant user body answer e) v =
    let m = adjust catalog faults tenant user body in
    Ensures-ok (λ _. IsAccounted opening) (m s.stock) answer t.stock
      (adjust-IsAccounted opening catalog faults tenant user body s.stock v)
      (on_stock-eq m s answer t e).0
Step-IsAccounted opening s t (transferred catalog faults tenant user fresh body answer e) v =
    let m = transfer catalog faults tenant user fresh body in
    Ensures-ok (λ _. IsAccounted opening) (m s.stock) answer t.stock
      (transfer-IsAccounted catalog faults tenant user fresh body s.stock opening v)
      (on_stock-eq m s answer t e).0
Step-IsAccounted opening s t (ordered reads faults tenant user year id body hook apart e) v =
    Ensures-ok (λ _ w. IsAccounted opening w.stock) _ id t
      (create-IsAccounted opening reads faults tenant user year body hook s apart v) e
Step-IsAccounted opening s t (sold shop reads faults tenant user year id body e) v =
    Ensures-ok (λ _ w. IsAccounted opening w.stock) _ id t
      (sale-IsAccounted opening shop reads faults tenant user year body s v) e
Step-IsAccounted opening s t (restated tenant user id status reason e) v =
    let u =
      Ensures-ok (λ _ w. Updated tenant id status s w) _ tt t
        (update_status-Updated tenant user id status reason s) e in
    rw u.3.stock v
Step-IsAccounted opening s t (cancelled tenant user id reason o found reserved e) v =
    Ensures-ok (λ _ w. IsAccounted opening w.stock) _ tt t
      (cancel-IsAccounted tenant user id reason o s found reserved opening v) e

-- After any sequence of corrections, transfers, orders, counter sales, changes of status and
-- cancellations of orders whose items all have their reservations on record, the movements account for
-- every inventory row from its opening quantity, and the warehouse table agrees with it, if that was
-- so before.
pub Run-IsAccounted :
    (opening : Key → ℕ) (s t : Db)
    → Run s t
    → IsAccounted opening s.stock
    → IsAccounted opening t.stock
Run-IsAccounted opening s t done v = v
Run-IsAccounted opening s t (call {t = m} before step) v =
    Step-IsAccounted opening m t step (Run-IsAccounted opening s m before v)
