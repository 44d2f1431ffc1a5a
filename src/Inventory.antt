-- ===== src/Inventory.antt =====
-- src/modules/inventory/inventory.service.js: stock corrections and transfers between warehouses.
-- A call is a transaction on the stock tables. `FOR UPDATE` locks the rows read, so a transaction
-- runs on one state; the wrapper round it is `Retry.execute`. An absent or empty id is `none`.
pub mod Adjusting
pub mod Transferring
use Prim.Native.String.{String}
use backend_pluseops.Base.{
  ℕ, ◌+◌, ◌-◌, Bool, false, not, ◌||◌, Option, none, some, List, [], ◌∷◌, ◌++◌, Error, Result, ok,
  err, Tx, ◌>>=◌, ◌>>◌, or_raise, raise_if, pure, raise, modify, validation_error, invalid_quantity,
  variant_not_found, warehouse_not_found, insufficient_stock, same_warehouse, ltb, leb, ◌==◌,
  if◌then◌else◌, get_or, given_text, is_some,
}
use backend_pluseops.Base.Tables.{lookup, quantity}
use backend_pluseops.Base.Int.{ℤ, pos, negsuc, ◌+ℤ◌, ◌-ℤ◌}
use backend_pluseops.Catalog.{Catalog}
use backend_pluseops.Stock.{
  Key, key_instance, MovementType, adjustment, transfer as transfer_type, Stock, write_both,
  write_inventory, record_movement,
}
use backend_pluseops.Retry.{Faults, execute}

abbrev pub low_stock_threshold : ℕ
low_stock_threshold = 10

-- `emitInventoryLowStock`
pub record LowStock : Type 0 where
  pub key : Key
  pub quantity : ℕ
  pub quantity_before : ℕ

unfoldable pub low_stock_event : Key → ℕ → ℕ → List LowStock
low_stock_event k before after =
    if leb after low_stock_threshold
    then record { key = k; quantity = after; quantity_before = before } ∷ []
    else []

-- `a || b`
abbrev pub or_else : Option ℕ → Option ℕ → Option ℕ
or_else none b = b
or_else (some a) b = some a

pub record AdjustRequest : Type 0 where
  pub variant_id : Option ℕ
  pub product_variant_id : Option ℕ
  pub warehouse_id : Option ℕ
  pub quantity_changed : ℤ
  pub reason : Option String
  pub reference_type : Option String
  pub reference_id : Option ℕ

pub record Adjusted : Type 0 where
  pub quantity_before : ℕ
  pub quantity_after : ℕ

abbrev is_zero : ℤ → Bool
is_zero (pos n) = n == 0
is_zero (negsuc n) = false

-- The part of `adjust` inside the transaction, once `after` is known.
pub post_adjustment : Key → ℕ → AdjustRequest → ℕ → ℤ → Tx Stock Adjusted
post_adjustment k user body before (negsuc n) = raise insufficient_stock
post_adjustment k user body before (pos after) = do
  modify (write_both k after)
  modify (
      record_movement (record {
        key = k;
        kind = adjustment;
        quantity_before = before;
        quantity_changed = body.quantity_changed;
        quantity_after = after;
        reason = get_or (given_text body.reason) "ADJUSTMENT";
        reference_type = given_text body.reference_type;
        reference_id = body.reference_id;
        created_by = user;
      }))
  pure (record { quantity_before = before; quantity_after = after })

unfoldable pub adjust_tx : Key → ℕ → AdjustRequest → Tx Stock Adjusted
unfolding post_adjustment
adjust_tx k user body s =
    let before = quantity k s.inventory in
    post_adjustment k user body before (pos before +ℤ body.quantity_changed) s

-- The checks of `adjust`, which name the row.
unfoldable pub adjust_target : Catalog → ℕ → AdjustRequest → Tx Stock Key
adjust_target catalog tenant body = do
  variant ← or_raise (or_else body.variant_id body.product_variant_id) validation_error
  warehouse ← or_raise body.warehouse_id validation_error
  raise_if (is_zero body.quantity_changed) invalid_quantity
  raise_if (not (is_some (catalog.variant tenant variant))) variant_not_found
  raise_if (not (catalog.has_warehouse tenant warehouse)) warehouse_not_found
  pure (record { tenant = tenant; variant = variant; warehouse = warehouse })

unfoldable pub adjust :
    Catalog → Faults → ℕ → ℕ → AdjustRequest → Tx Stock (Adjusted × List LowStock)
adjust catalog faults tenant user body = do
  k ← adjust_target catalog tenant body
  result ← execute faults (adjust_tx k user body)
  pure (result, low_stock_event k result.quantity_before result.quantity_after)

pub record TransferRequest : Type 0 where
  pub variant_id : Option ℕ
  pub product_variant_id : Option ℕ
  pub source_warehouse_id : Option ℕ
  pub warehouse_id : Option ℕ
  pub destination_warehouse_id : Option ℕ
  pub dest_warehouse_id : Option ℕ
  pub quantity : ℤ
  pub reason : Option String
  pub reference_type : Option String
  pub reference_id : Option ℕ

pub record Transferred : Type 0 where
  pub source_before : ℕ
  pub source_after : ℕ
  pub dest_before : ℕ
  pub dest_after : ℕ

-- The source row: it is updated with its mirror, or created alone.
pub write_source : Bool → Key → ℕ → Stock → Stock
write_source exists k after = if exists then write_both k after else write_inventory k after

-- One of the two movements of a transfer. `fresh` is the generated reference.
pub transfer_movement : TransferRequest → ℕ → ℕ → Key → ℕ → ℤ → ℕ → Stock → Stock
transfer_movement body user fresh k before changed after = record_movement (record {
  key = k;
  kind = transfer_type;
  quantity_before = before;
  quantity_changed = changed;
  quantity_after = after;
  reason = get_or (given_text body.reason) "TRANSFER";
  reference_type = some (get_or (given_text body.reference_type) "TRANSFER");
  reference_id = some (get_or body.reference_id fresh);
  created_by = user;
})

-- A quantity that passes `!quantity || quantity <= 0`.
abbrev positive : ℤ → Option ℕ
positive (pos n) = if n == 0 then none else some n
positive (negsuc n) = none

-- The part of `transfer` inside the transaction, for `n` pieces.
unfoldable pub transfer_tx : Key → Key → ℕ → ℕ → ℕ → TransferRequest → Tx Stock Transferred
unfolding write_source transfer_movement
transfer_tx source dest n user fresh body s =
    let source_before = quantity source s.inventory in
    let dest_before = quantity dest s.inventory in
    let source_exists = is_some (lookup source s.inventory) in
    let source_after = source_before - n in
    let dest_after = dest_before + n in
    (do
      raise_if (ltb source_before n) insufficient_stock
      modify (write_source source_exists source source_after)
      modify (write_both dest dest_after)
      modify (transfer_movement body user fresh source source_before (pos 0 -ℤ pos n) source_after)
      modify (transfer_movement body user fresh dest dest_before (pos n) dest_after)
      pure (record {
        source_before = source_before;
        source_after = source_after;
        dest_before = dest_before;
        dest_after = dest_after;
      }))
      s

-- The source row, the destination row and the pieces, once the checks of `transfer` have passed.
pub record TransferPlan : Type 0 where
  pub source : Key
  pub dest : Key
  pub pieces : ℕ

unfoldable pub transfer_plan : Catalog → ℕ → TransferRequest → Tx Stock TransferPlan
transfer_plan catalog tenant body = do
  variant ← or_raise (or_else body.variant_id body.product_variant_id) validation_error
  source ← or_raise (or_else body.source_warehouse_id body.warehouse_id) validation_error
  dest ← or_raise (or_else body.destination_warehouse_id body.dest_warehouse_id) validation_error
  raise_if (source == dest) same_warehouse
  n ← or_raise (positive body.quantity) invalid_quantity
  raise_if (not (is_some (catalog.variant tenant variant))) variant_not_found
  raise_if (not (catalog.has_warehouse tenant source)) warehouse_not_found
  raise_if (not (catalog.has_warehouse tenant dest)) warehouse_not_found
  pure (record {
    source = record { tenant = tenant; variant = variant; warehouse = source };
    dest = record { tenant = tenant; variant = variant; warehouse = dest };
    pieces = n;
  })

unfoldable pub transfer :
    Catalog → Faults → ℕ → ℕ → ℕ → TransferRequest → Tx Stock (Transferred × List LowStock)
transfer catalog faults tenant user fresh body = do
  plan ← transfer_plan catalog tenant body
  result ← execute faults (transfer_tx plan.source plan.dest plan.pieces user fresh body)
  pure (
    result,
    low_stock_event plan.source result.source_before result.source_after
        ++ low_stock_event plan.dest result.dest_before result.dest_after,
  )
