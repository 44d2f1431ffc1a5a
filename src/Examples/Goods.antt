-- ===== src/Examples/Goods.antt =====
-- Stock and orders at concrete inputs.
use backend_pluseops.Base.{
  ℕ, ◌≡◌, ◌≤◌, ◌↔◌, refl, true, false, none, some, [], ◌∷◌, ok, err, is_ok, Ensures, pure, Tx,
  arith, ◌==◌, ◌&&◌, Bool, Option, Result,
}
use backend_pluseops.Base.Lists.{All}
use backend_pluseops.Base.Tables.{quantity, total, lookup, upsert}
use backend_pluseops.Base.Int.{pos, negsuc, ◌-ℤ◌}
use backend_pluseops.Stock.{Key, write_both, record_movement, key_instance}
use backend_pluseops.Stock.Ledger.{IsAccounted}
use backend_pluseops.Inventory.{
  AdjustRequest, TransferRequest, TransferPlan, adjust_target, transfer_plan, transfer,
}
use backend_pluseops.Inventory.Transferring.{transfer_conserves}
use backend_pluseops.Db.{Db, Order, OrderStatus, put_order, add_history, add_audit}
use backend_pluseops.Orders.Placing.{
  create, place_tx, reserve_lines, reserve_line, next_invoice, record_reservations,
}
use backend_pluseops.Orders.Planning.{
  plan_order, resolve_order_address, place_of_supply, charges_gst, find_variants, check_warehouses,
}
use backend_pluseops.Orders.Pricing.{price_items, add_line, price_line, figure_line}
use backend_pluseops.Gst.{line_tax, line_rate, gst_cents, split_tax, round_div, is_intra_state}
use backend_pluseops.Plans.{assert_within_plan}
use backend_pluseops.Retry.{execute}
use backend_pluseops.Orders.Placing.Reserving.{demand, reserve_lines-enough}
use backend_pluseops.Orders.Placing.Placed.{IsApart, create-IsAccounted}
use backend_pluseops.Orders.Changing.{
  order_of, reserved_for, update_status, cancel, get_by_id, cancel_tx, restore_items, restore_item,
  restore_movements, restore_movement, set_status,
}
use backend_pluseops.Orders.Changing.Updating.{Updated, update_status-Updated}
use backend_pluseops.Orders.Changing.Succeeding.{cancel-is_cancellable}
use backend_pluseops.Stock.Matching.{IsMatched}
use backend_pluseops.Orders.Changing.Cancelling.{
  HasMovements, Cancelled, cancel-Cancelled, cancel-IsAccounted,
}
use backend_pluseops.Pos.{Shop, SaleRequest, cash}
use backend_pluseops.Examples.{
  catalog, shelf, store, stock, opening, stock-IsAccounted, calm, item, reads, body, line, order,
  reserved, new_shop, open_shop,
}

abbrev correction : AdjustRequest
correction = record {
  variant_id = some 7;
  product_variant_id = none;
  warehouse_id = some 3;
  quantity_changed = negsuc 1;
  reason = none;
  reference_type = none;
  reference_id = none;
}

abbrev move : TransferRequest
move = record {
  variant_id = some 7;
  product_variant_id = none;
  source_warehouse_id = some 3;
  warehouse_id = none;
  destination_warehouse_id = some 4;
  dest_warehouse_id = none;
  quantity = pos 2;
  reason = none;
  reference_type = none;
  reference_id = none;
}

abbrev plan : TransferPlan
plan = record { source = shelf; dest = store; pieces = 2 }

targets : adjust_target catalog 1 correction stock ≡ ok (shelf, stock)
unfolding adjust_target
targets = refl

plans : transfer_plan catalog 1 move stock ≡ ok (plan, stock)
unfolding transfer_plan
plans = refl

transfer_conserves_example :
    let p : Key → Bool = λ k. k.tenant == 1 && k.variant == 7 in
    Ensures
      (λ r s'. total p s'.inventory ≡ total p stock.inventory)
      (transfer catalog calm 1 2 99 move stock)
transfer_conserves_example = transfer_conserves catalog calm 1 2 99 move stock 1 7

reserve_lines-enough_example :
    (is_ok (reserve_lines 1 (line ∷ []) stock) ≡ true)
    ↔ ((k : Key) → demand 1 k (line ∷ []) ≤ quantity k stock.inventory)
reserve_lines-enough_example = reserve_lines-enough 1 (line ∷ []) stock (omega arith, tt)

abbrev no_hook : ℕ → Order → Tx Db Unit
no_hook id o = pure tt

no_hook-IsApart : IsApart no_hook
no_hook-IsApart = record { stock = λ id o s. refl }

create-IsAccounted_example :
    Ensures
      (λ _ s'. IsAccounted opening s'.stock)
      (create reads calm 1 2 2025 body no_hook new_shop)
create-IsAccounted_example =
    create-IsAccounted opening reads calm 1 2 2025 body no_hook new_shop no_hook-IsApart
      stock-IsAccounted

-- The counter sells two shirts for cash, without shipping.
abbrev shop : Shop
shop = record {
  walk_in = 6;
  default_warehouse = some 3;
  default_register = 8;
  has_credentials = false;
  captured = λ qr amount. none;
}

abbrev basket : SaleRequest
basket = record {
  customer_id = none;
  warehouse_id = none;
  register_id = none;
  items = item ∷ [];
  payments =
      record { method = cash; amount = 23600; tendered = some 25000; qr = none; confirmed = none }
      ∷ [];
}

update_status-Updated_example :
    Ensures
      (λ _ s'. Updated 1 40 OrderStatus.confirmed open_shop s')
      (update_status 1 2 40 OrderStatus.confirmed none open_shop)
update_status-Updated_example = update_status-Updated 1 2 40 OrderStatus.confirmed none open_shop

finds : order_of 1 40 open_shop ≡ some order
unfolding lookup
finds = refl

has_movements : All (HasMovements 1 40 open_shop.stock) (line ∷ [])
unfolding reserved_for
has_movements = (λ e. ground arith, tt)

-- Seven pieces, of which two are reserved.
abbrev pub at_first : Key → ℕ
at_first k = quantity k ((shelf, 7) ∷ [])

pub open_shop-IsAccounted : IsAccounted at_first open_shop.stock
unfolding lookup
open_shop-IsAccounted = record { ledger = λ k. ground arith; mirror = λ k. refl }

open_shop-IsMatched : IsMatched open_shop.stock
unfolding IsMatched
open_shop-IsMatched = λ k e. e

cancel-is_cancellable_example : is_ok (cancel 1 2 40 none open_shop) ≡ true
unfolding lookup
cancel-is_cancellable_example = cancel-is_cancellable 1 2 40 none open_shop open_shop-IsMatched

cancel-Cancelled_example :
    Ensures (λ _ s'. Cancelled 1 40 order open_shop s') (cancel 1 2 40 none open_shop)
cancel-Cancelled_example = cancel-Cancelled 1 2 40 none order open_shop finds has_movements

cancel-IsAccounted_example :
    Ensures (λ _ s'. IsAccounted at_first s'.stock) (cancel 1 2 40 none open_shop)
cancel-IsAccounted_example =
    cancel-IsAccounted 1 2 40 none order open_shop finds has_movements at_first
      open_shop-IsAccounted

-- The rows of the shelf after a call.
abbrev shelf_after : {A : Type 0} → Result (A × Db) → Option ℕ
shelf_after (ok r) = some (quantity shelf r.1.stock.inventory)
shelf_after (err e) = none

create_takes : shelf_after (create reads calm 1 2 2025 body no_hook new_shop) ≡ some 3
unfolding create plan_order resolve_order_address place_of_supply charges_gst find_variants
    check_warehouses price_items add_line price_line figure_line line_tax line_rate gst_cents
    split_tax round_div is_intra_state assert_within_plan execute place_tx reserve_lines
    reserve_line write_both next_invoice put_order record_reservations record_movement add_history
    add_audit lookup upsert ◌-ℤ◌
create_takes = refl

cancel_gives_back : shelf_after (cancel 1 2 40 none open_shop) ≡ some 7
unfolding cancel get_by_id cancel_tx restore_items restore_item restore_movements restore_movement
    reserved_for set_status write_both put_order record_movement add_history add_audit lookup upsert
cancel_gives_back = refl

-- Two lines of the same variant, each with a reservation of two pieces: cancelling gives back eight
-- pieces, not four.
abbrev double_shop : Db
double_shop = record open_shop {
  stock = record open_shop.stock { movements = reserved ∷ reserved ∷ [] };
  orders = (40, record order { items = line ∷ line ∷ [] }) ∷ [];
}

cancel_gives_back_twice : shelf_after (cancel 1 2 40 none double_shop) ≡ some 13
unfolding cancel get_by_id cancel_tx restore_items restore_item restore_movements restore_movement
    reserved_for set_status write_both put_order record_movement add_history add_audit lookup upsert
cancel_gives_back_twice = refl
