-- ===== src/Stock/Matching.antt =====
-- The rows of the two stock tables.
use backend_pluseops.Base.{ℕ, ◌≡◌, none, arith}
use backend_pluseops.Base.Tables.{lookup, lookup-upsert}
use backend_pluseops.Stock.{
  Key, key_instance, Movement, Stock, write_both, write_inventory, record_movement,
}

-- Every row of the warehouses has its row in the inventory.
unfoldable pub IsMatched : Stock → Type 0
IsMatched s = (k : Key) → lookup k s.inventory ≡ none → lookup k s.warehouse_inventory ≡ none

pub write_both-IsMatched :
    (k : Key) (n : ℕ) (s : Stock) → IsMatched s → IsMatched (write_both k n s)
unfolding IsMatched write_both
write_both-IsMatched k n s h j e =
    ground
      (arith, h j, lookup-upsert k j n s.inventory, lookup-upsert k j n s.warehouse_inventory, e)

pub write_inventory-IsMatched :
    (k : Key) (n : ℕ) (s : Stock) → IsMatched s → IsMatched (write_inventory k n s)
unfolding IsMatched write_inventory
write_inventory-IsMatched k n s h j e = h j (ground (arith, lookup-upsert k j n s.inventory, e))

pub record_movement-IsMatched :
    (m : Movement) (s : Stock) → IsMatched s → IsMatched (record_movement m s)
unfolding IsMatched record_movement
record_movement-IsMatched m s h = h
