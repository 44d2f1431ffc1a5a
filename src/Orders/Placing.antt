-- ===== src/Orders/Placing.antt =====
-- The transaction of `create` in src/modules/orders/orders.service.js.
-- The row locks make the transaction run on one state. `hook` is `options.inTx`; `year` is the
-- financial year of the day, by its first year.
pub mod Reserving
pub mod Placed
pub mod Recorded
pub mod Returned
use backend_pluseops.Base.{
  ℕ, ◌+◌, ◌-◌, Bool, Option, none, some, List, [], ◌∷◌, Error, Result, ok, err, Tx, ◌>>=◌, ◌>>◌,
  raise_if, raise, pure, modify, gets, insufficient_stock, ltb, get_or, nat_eq, pair_eq,
}
use backend_pluseops.Base.Checks.{lift}
use backend_pluseops.Base.Tables.{lookup, upsert, quantity}
use backend_pluseops.Base.Int.{pos, ◌-ℤ◌}
use backend_pluseops.Stock.{
  Key, key_instance, Movement, order_reservation, Stock, write_both, record_movement,
}
use backend_pluseops.Db.{
  Db, Order, OrderStatus, Line, HistoryEntry, AuditEntry, Action, Resource, on_stock, fresh_id,
  put_order, add_history, add_audit,
}
use backend_pluseops.Orders.Pricing.{order_total}
use backend_pluseops.Orders.Planning.{Reads, OrderRequest, OrderPlan, plan_order}
use backend_pluseops.Retry.{Faults, execute}

abbrev pub line_key : ℕ → Line → Key
line_key tenant l = record { tenant = tenant; variant = l.variant; warehouse = l.warehouse }

-- The row that a line takes its pieces from, `none` if there is no such row.
take_pieces : Key → ℕ → Option ℕ → Tx Stock Unit
take_pieces k n none = raise insufficient_stock
take_pieces k n (some current) = modify (write_both k (current - n))

unfoldable pub reserve_line : ℕ → Line → Tx Stock Unit
unfolding take_pieces
reserve_line tenant l s =
    let k = line_key tenant l in
    (do
      raise_if (ltb (quantity k s.inventory) l.quantity) insufficient_stock
      take_pieces k l.quantity (lookup k s.inventory))
      s

-- The loop that checks and deducts.
unfoldable pub reserve_lines : ℕ → List Line → Tx Stock Unit
reserve_lines tenant [] = pure tt
reserve_lines tenant (l ∷ lines) = do reserve_line tenant l; reserve_lines tenant lines

reservation : ℕ → ℕ → ℕ → Line → Stock → Movement
reservation tenant user order_id l s =
    let after = quantity (line_key tenant l) s.inventory in
    record {
      key = line_key tenant l;
      kind = order_reservation;
      quantity_before = after + l.quantity;
      quantity_changed = pos 0 -ℤ pos l.quantity;
      quantity_after = after;
      reason = "ORDER_CREATED";
      reference_type = some "ORDER";
      reference_id = some order_id;
      created_by = user;
    }

-- The loop that records the movements, after all deductions.
unfoldable pub record_reservations : ℕ → ℕ → ℕ → List Line → Stock → Stock
unfolding reservation
record_reservations tenant user order_id [] s = s
record_reservations tenant user order_id (l ∷ lines) s =
    record_reservations tenant user order_id lines
      (record_movement (reservation tenant user order_id l s) s)

-- The upsert of "invoice_sequences", RETURNING the new number.
unfoldable pub next_invoice : ℕ → ℕ → Tx Db ℕ
next_invoice tenant year s =
    let n = get_or (lookup (tenant, year) s.sequences) 0 + 1 in
    ok (n, record s { sequences = upsert (tenant, year) n s.sequences })

abbrev pub new_order : OrderPlan → ℕ → ℕ → Order
new_order plan year sequence = record {
  tenant = plan.tenant;
  customer = plan.customer;
  status = OrderStatus.pending;
  subtotal = plan.totals.subtotal;
  discount_total = plan.totals.discount_total;
  tax_total = plan.totals.tax_total;
  shipping_total = plan.shipping_total;
  total = order_total plan.totals plan.shipping_total;
  gst_totals = plan.totals.gst;
  intra_state = plan.intra_state;
  place_of_supply = plan.place_of_supply;
  invoice_year = year;
  invoice_sequence = sequence;
  currency = plan.currency;
  channel = plan.channel;
  items = plan.lines;
}

-- What an order leaves in the history and the audit log.
log_creation : OrderPlan → ℕ → ℕ → Tx Db Unit
log_creation plan user id = do
  modify (
      add_history (record {
        tenant = plan.tenant;
        order_id = id;
        from_status = none;
        to_status = OrderStatus.pending;
        reason = some "Order created";
        created_by = user;
      }))
  modify (
      add_audit (record {
        tenant = plan.tenant;
        user = user;
        action = Action.create;
        resource = Resource.order;
        resource_id = id;
        activity = "order.create";
      }))

-- The invoice number, the order with its lines, the movements and the logs.
write_order : OrderPlan → ℕ → ℕ → Tx Db (ℕ × Order)
write_order plan user year = do
  sequence ← next_invoice plan.tenant year
  id ← fresh_id
  let order = new_order plan year sequence
  modify (put_order id order)
  on_stock (modify (record_reservations plan.tenant user id plan.lines))
  log_creation plan user id
  pure (id, order)

unfoldable pub place_tx : OrderPlan → ℕ → ℕ → (ℕ → Order → Tx Db Unit) → Tx Db ℕ
unfolding write_order log_creation
place_tx plan user year hook = do
  on_stock (reserve_lines plan.tenant plan.lines)
  written ← write_order plan user year
  hook written.0 written.1
  pure written.0

-- `OrderService.create`
unfoldable pub create :
    Reads → Faults → ℕ → ℕ → ℕ → OrderRequest → (ℕ → Order → Tx Db Unit) → Tx Db ℕ
create reads faults tenant user year body hook = do
  plan ← lift (plan_order reads tenant body)
  execute faults (place_tx plan user year hook)
