-- ===== src/Examples/Returns.antt =====
-- An order placed and cancelled, and a sequence of calls.
use backend_pluseops.Base.{◌≡◌, refl, true, none, some, [], ◌∷◌, ok, err, Result, pure, arith}
use backend_pluseops.Base.Lists.{All}
use backend_pluseops.Base.Tables.{quantity, lookup, upsert}
use backend_pluseops.Base.Int.{◌-ℤ◌}
use backend_pluseops.Stock.{Key, key_instance, write_both, record_movement}
use backend_pluseops.Stock.Ledger.{IsAccounted}
use backend_pluseops.Db.{Db, Channel, OrderStatus, put_order, add_history, add_audit}
use backend_pluseops.Orders.Planning.{OrderPlan}
use backend_pluseops.Orders.Placing.{
  place_tx, reserve_lines, reserve_line, next_invoice, record_reservations,
}
use backend_pluseops.Stock.Matching.{IsMatched}
use backend_pluseops.Orders.Placing.Returned.{cancel-place_tx}
use backend_pluseops.Orders.Placing.Recorded.{IsDistinct, IsUnreserved}
use backend_pluseops.Orders.Changing.{
  cancel, get_by_id, cancel_tx, restore_items, restore_item, restore_movements, restore_movement,
  reserved_for, set_status, update_status, update_tx, order_of,
}
use backend_pluseops.Examples.Goods.{at_first, open_shop-IsAccounted}
use backend_pluseops.Orders.Changing.Cancelling.{HasMovements}
use backend_pluseops.Orders.Status.{is_valid_transition}
use backend_pluseops.Trade.{done, call, restated, cancelled, Run-IsAccounted}
use backend_pluseops.Examples.{line, order, new_shop, open_shop}

abbrev plan : OrderPlan
plan = record {
  tenant = 1;
  customer = 6;
  lines = line ∷ [];
  totals = record {
    subtotal = 20000;
    discount_total = 0;
    tax_total = 3600;
    gst = record { cgst = 1800; sgst = 1800; igst = 0 };
  };
  shipping_total = 5000;
  currency = "INR";
  intra_state = true;
  place_of_supply = some 29;
  channel = Channel.staff;
}

abbrev after : {A : Type 0} → Result (A × Db) → Db
after (ok r) = r.1
after (err e) = new_shop

abbrev placed : Db
placed = after (place_tx plan 2 2025 (λ id o. pure tt) new_shop)

abbrev returned : Db
returned = after (cancel 1 2 100 none placed)

places : place_tx plan 2 2025 (λ id o. pure tt) new_shop ≡ ok (100, placed)
unfolding place_tx reserve_lines reserve_line write_both next_invoice put_order record_reservations
    record_movement add_history add_audit lookup upsert ◌-ℤ◌
places = refl

returns : cancel 1 2 100 none placed ≡ ok (tt, returned)
unfolding cancel get_by_id cancel_tx restore_items restore_item restore_movements restore_movement
    reserved_for set_status write_both put_order record_movement add_history add_audit lookup upsert
    place_tx reserve_lines reserve_line next_invoice record_reservations ◌-ℤ◌
returns = refl

new_shop-IsMatched : IsMatched new_shop.stock
unfolding IsMatched
new_shop-IsMatched = λ k e. e

cancel-place_tx_example :
    (u : Db) × (cancel 1 2 100 none placed ≡ ok (tt, u))
    × ((k : Key) → quantity k u.stock.inventory ≡ quantity k new_shop.stock.inventory)
unfolding IsDistinct IsUnreserved
cancel-place_tx_example =
    cancel-place_tx plan 2 2025 2 none new_shop 100 placed (omega arith, tt) (tt, tt) (λ v. refl)
      new_shop-IsMatched places

-- The order of the open shop is confirmed, and then cancelled.
abbrev confirmed : Db
confirmed = after (update_status 1 2 40 OrderStatus.confirmed none open_shop)

abbrev emptied : Db
emptied = after (cancel 1 2 40 none confirmed)

confirms : update_status 1 2 40 OrderStatus.confirmed none open_shop ≡ ok (tt, confirmed)
unfolding update_status get_by_id update_tx set_status put_order add_history add_audit lookup upsert
    is_valid_transition
confirms = refl

empties : cancel 1 2 40 none confirmed ≡ ok (tt, emptied)
unfolding update_status get_by_id update_tx set_status put_order add_history add_audit lookup upsert
    is_valid_transition cancel cancel_tx restore_items restore_item restore_movements
    restore_movement reserved_for write_both record_movement
empties = refl

finds : order_of 1 40 confirmed ≡ some (record order { status = OrderStatus.confirmed })
unfolding update_status get_by_id update_tx set_status put_order add_history add_audit lookup upsert
    is_valid_transition
finds = refl

has_movements : All (HasMovements 1 40 confirmed.stock) (line ∷ [])
unfolding update_status get_by_id update_tx set_status put_order add_history add_audit lookup upsert
    is_valid_transition reserved_for
has_movements = (λ e. ground arith, tt)

Run-IsAccounted_example : IsAccounted at_first emptied.stock
Run-IsAccounted_example =
    Run-IsAccounted at_first open_shop emptied
      (call (call done (restated 1 2 40 OrderStatus.confirmed none confirms)) (
        cancelled 1 2 40 none (record order { status = OrderStatus.confirmed }) finds has_movements
          empties))
      open_shop-IsAccounted
