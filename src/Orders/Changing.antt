-- ===== src/Orders/Changing.antt =====
-- `getById`, `updateStatus` and `cancel` of src/modules/orders/orders.service.js.
-- Both changes read the order first and decide on that read; their transactions do not look at its
-- status again, so each takes the order that was read as an argument.
pub mod Updating
pub mod Cancelling
pub mod Succeeding
use Prim.Native.String.{String, compare}
use text.Mathlib.Text.{is_eq}
use backend_pluseops.Base.{
  ℕ, ◌+◌, Bool, true, false, not, ◌&&◌, Option, none, some, List, [], ◌∷◌, Error, Result, ok, err,
  Tx, ◌>>=◌, ◌>>◌, raise_if, or_raise, raise, pure, modify, gets, nat_eq, ◌==◌, is_some, get_or,
  given_text, order_not_found, invalid_status_transition, cancellation_not_allowed,
  already_cancelled, unique_violation, database_fault, if◌then◌else◌,
}
use backend_pluseops.Base.Lists.{filter, find}
use backend_pluseops.Base.Tables.{Table, lookup, quantity}
use backend_pluseops.Base.Int.{pos, abs}
use backend_pluseops.Stock.{
  Key, key_instance, Movement, MovementType, order_reservation, order_release, Stock, write_both,
  write_inventory, record_movement,
}
use backend_pluseops.Db.{
  Db, Order, OrderStatus, Line, HistoryEntry, AuditEntry, Action, Resource, on_stock, put_order,
  add_history, add_audit,
}
use backend_pluseops.Orders.Status.{is_valid_transition, includes, index, cancellable_statuses}

-- `findFirst({ where: { id, tenantId } })`
abbrev pub order_of : ℕ → ℕ → Db → Option Order
order_of tenant id s = elim (lookup id s.orders) [
  | none ↦ none
  | some o ↦ if o.tenant == tenant then some o else none
]

unfoldable pub get_by_id : ℕ → ℕ → Tx Db Order
get_by_id tenant id s = or_raise (order_of tenant id s) order_not_found s

-- `tx.order.update({ where: { id }, data: { status } })`
unfoldable pub set_status : ℕ → OrderStatus → Tx Db Unit
set_status id status s = elim (lookup id s.orders) [
  | none ↦ err database_fault
  | some o ↦ ok (tt, put_order id (record o { status = status }) s)
]

-- The history entry and the audit rows of a change of status.
pub log_change : ℕ → ℕ → ℕ → OrderStatus → OrderStatus → Option String → String → Tx Db Unit
log_change tenant user id from to reason activity = do
  modify (
      add_history (record {
        tenant = tenant;
        order_id = id;
        from_status = some from;
        to_status = to;
        reason = reason;
        created_by = user;
      }))
  modify (
      add_audit (record {
        tenant = tenant;
        user = user;
        action = Action.update;
        resource = Resource.order;
        resource_id = id;
        activity = activity;
      }))

-- The transaction of `updateStatus`, for the order that was read.
unfoldable pub update_tx : Order → ℕ → ℕ → ℕ → OrderStatus → Option String → Tx Db Unit
unfolding log_change
update_tx order tenant user id status reason = do
  set_status id status
  log_change tenant user id order.status status (given_text reason) "order.status_update"

unfoldable pub update_status : ℕ → ℕ → ℕ → OrderStatus → Option String → Tx Db Unit
update_status tenant user id status reason = do
  order ← get_by_id tenant id
  raise_if (not (is_valid_transition (some order.status) status)) invalid_status_transition
  update_tx order tenant user id status reason

is_reservation : MovementType → Bool
is_reservation order_reservation = true
is_reservation _ = false

is_order_reference : Option String → Bool
is_order_reference none = false
is_order_reference (some t) = is_eq (compare t "ORDER")

is_reference_id : Option ℕ → ℕ → Bool
is_reference_id none id = false
is_reference_id (some j) id = j == id

-- The `where` of the query for the movements that reserved a variant for an order.
unfoldable pub reserved_for : ℕ → ℕ → ℕ → Movement → Bool
unfolding is_reservation is_order_reference is_reference_id
reserved_for tenant id variant m =
    m.key.tenant == tenant
    && (m.key.variant == variant
        && (is_order_reference m.reference_type
            && (is_reference_id m.reference_id id && is_reservation m.kind)))

abbrev release : Key → ℕ → ℕ → ℕ → String → ℕ → Movement
release k before amount id reason user = record {
  key = k;
  kind = order_release;
  quantity_before = before;
  quantity_changed = pos amount;
  quantity_after = before + amount;
  reason = reason;
  reference_type = some "ORDER";
  reference_id = some id;
  created_by = user;
}

-- UPDATE and upsert where there is an inventory row, INSERT of both rows where there is none.
restore_rows : Key → ℕ → Tx Stock Unit
restore_rows k after s = elim (lookup k s.inventory) [
  | some current ↦ ok (tt, write_both k after s)
  | none ↦
      if is_some (lookup k s.warehouse_inventory)
      then err unique_violation
      else ok (tt, write_both k after s)
]

-- One movement of the inner loop.
unfoldable pub restore_movement : ℕ → ℕ → String → Movement → Tx Stock Unit
unfolding restore_rows
restore_movement user id reason m s =
    let before = quantity m.key s.inventory in
    let amount = abs m.quantity_changed in
    (do
      restore_rows m.key (before + amount)
      modify (record_movement (release m.key before amount id reason user)))
      s

unfoldable pub restore_movements : ℕ → ℕ → String → List Movement → Tx Stock Unit
restore_movements user id reason [] = pure tt
restore_movements user id reason (m ∷ ms) = do
  restore_movement user id reason m
  restore_movements user id reason ms

-- `inventories[0]`
abbrev first_row : ℕ → ℕ → Stock → Option (Key × ℕ)
first_row tenant variant s = find (λ r. r.0.tenant == tenant && r.0.variant == variant) s.inventory

-- The fallback for an item without movements writes the inventory row alone.
restore_fallback : ℕ → ℕ → String → ℕ → Option (Key × ℕ) → Tx Stock Unit
restore_fallback user id reason amount none = pure tt
restore_fallback user id reason amount (some r) = do
  modify (write_inventory r.0 (r.1 + amount))
  modify (record_movement (release r.0 r.1 amount id reason user))

restore_found : ℕ → ℕ → ℕ → String → Line → List Movement → Tx Stock Unit
unfolding restore_fallback
restore_found tenant user id reason item [] s =
    restore_fallback user id reason item.quantity (first_row tenant item.variant s) s
restore_found tenant user id reason item (m ∷ ms) s = restore_movements user id reason (m ∷ ms) s

unfoldable pub restore_item : ℕ → ℕ → ℕ → String → Line → Tx Stock Unit
unfolding restore_found
restore_item tenant user id reason item s =
    restore_found tenant user id reason item
      (filter (reserved_for tenant id item.variant) s.movements) s

-- The loop over the items.
unfoldable pub restore_items : ℕ → ℕ → ℕ → String → List Line → Tx Stock Unit
restore_items tenant user id reason [] = pure tt
restore_items tenant user id reason (item ∷ items) = do
  restore_item tenant user id reason item
  restore_items tenant user id reason items

-- The transaction of `cancel`, for the order that was read.
unfoldable pub cancel_tx : Order → ℕ → ℕ → ℕ → Option String → Tx Db Unit
unfolding log_change
cancel_tx order tenant user id reason = do
  on_stock (restore_items tenant user id (get_or (given_text reason) "ORDER_CANCELLED") order.items)
  set_status id OrderStatus.cancelled
  log_change tenant user id order.status OrderStatus.cancelled
      (some (get_or (given_text reason) "Order cancelled")) "order.cancel"

unfoldable pub cancel : ℕ → ℕ → ℕ → Option String → Tx Db Unit
cancel tenant user id reason = do
  order ← get_by_id tenant id
  raise_if (not (includes cancellable_statuses order.status)) cancellation_not_allowed
  raise_if (index order.status == index OrderStatus.cancelled) already_cancelled
  cancel_tx order tenant user id reason
